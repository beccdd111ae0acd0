-- ===== src/Sidecar/Tests.antt =====
-- Runs of the sidecar's readers and signals.
use workbench.Prelude.{ℕ, ◌≡◌, refl, true, false, Option, none, some, List, [], ◌∷◌, ◌++◌, map, inl}
use workbench.Sidecar.{
  Text, Decoder, cut_line, without_cr, drain, take_value, read_lines, read_frames,
}
use workbench.Sidecar.Lines.{chunk, end_of_stream, lines_from, decoded, read_lines_lem}
use workbench.Sidecar.Groups.{
  Signal, numbered_signal, KillError, no_process, kill_refused, Child, killed, exited, sigkill,
  sigterm, signal_group, kill_child, settle, spawn_child, child_step, run_child, run_child-exited,
}

-- A decoder of one byte for each character
abbrev plain : Decoder Text
plain = record { State = Unit {0}; initial = tt; decode = λ state bytes. (bytes, state) }

-- "ab\r", "\n\nc" and "d"
abbrev chunks : List Text
chunks = (97 ∷ 98 ∷ 13 ∷ []) ∷ (10 ∷ 10 ∷ 99 ∷ []) ∷ (100 ∷ []) ∷ []

read_lines_test :
    read_lines plain tt [] (map (chunk plain) chunks ++ end_of_stream plain ∷ [])
    ≡ some ((97 ∷ 98 ∷ []) ∷ (99 ∷ 100 ∷ []) ∷ [])
unfolding read_lines take_value drain cut_line without_cr
read_lines_test = refl

read_lines_lem_example :
    read_lines plain tt [] (map (chunk plain) chunks ++ end_of_stream plain ∷ [])
    ≡ some (lines_from [] (decoded plain tt chunks))
read_lines_lem_example = read_lines_lem plain chunks

read_frames_test :
    read_frames {Byte = ℕ} (
      record { value = some (1 ∷ []); done = false }
      ∷ record { value = some []; done = false }
      ∷ record { value = none; done = true }
      ∷ record { value = some (2 ∷ []); done = true }
      ∷ [])
    ≡ (1 ∷ []) ∷ []
unfolding read_frames
read_frames_test = refl

-- After two signals, the group has no process.
abbrev short_lived : List Signal → Signal → Option KillError
short_lived [] signal = none
short_lived (first ∷ []) signal = none
short_lived (first ∷ second ∷ sent) signal = some no_process

abbrev stopped_once : Child
stopped_once = record { group_released = false; sent = sigterm ∷ [] }

run_child-exited_example :
    run_child short_lived
      (exited ∷ killed none ∷ killed (some (numbered_signal 9)) ∷ exited ∷ [])
      stopped_once
    ≡ record { group_released = true; sent = sigterm ∷ sigkill ∷ [] }
run_child-exited_example =
    run_child-exited short_lived stopped_once
      (killed none ∷ killed (some (numbered_signal 9)) ∷ exited ∷ []) refl (inl refl)

abbrev forbidden : List Signal → Signal → Option KillError
forbidden sent signal = some (kill_refused "EPERM")

-- Where the final signal is refused, the group is not released, and a later `kill` signals it again.
settle_refused :
    run_child forbidden (exited ∷ killed none ∷ []) stopped_once
    ≡ record { group_released = false; sent = sigterm ∷ sigkill ∷ sigterm ∷ [] }
unfolding run_child child_step settle kill_child signal_group
settle_refused = refl

-- Without an event channel, the child's group is killed.
spawn_test :
    (spawn_child forbidden none (record { group_released = false; sent = [] })).1
    ≡ record { group_released = false; sent = sigkill ∷ [] }
unfolding spawn_child signal_group
spawn_test = refl
