-- ===== src/Provision/Samples.antt =====
-- Concrete parameters: a codec that keeps the rows, and numerals in tally marks.
use Prim.Native.Char.{code}
use text.Mathlib.TextLemmas.{cons-append}
use workbench.Prelude.Tallies.{tally, count_marks, count_marks-tally}
use workbench.Prelude.{
  ◌<>◌, ℕ, zero, suc, ◌≡◌, refl, ap, String, true, false, none, some, List, [], ◌∷◌, arith, nat_eq,
  if◌then◌else◌,
}
use workbench.Provision.Store.{Codec, Allocation, StoreHost, written, rows, Store, Target}
use workbench.Provision.Refs.{Numerals, NoColon}
use workbench.Provision.Units.{World, Host, exits}
use workbench.Provision.Requests.{Others, EnsureRequest, DestroyRequest}

abbrev pub sample_codec : Codec
sample_codec = record {
  Contents = List Allocation;
  encode = λ rs. rs;
  decode = rows;
  decode-encode = λ rs. refl;
}

abbrev pub first_line : String → String
first_line String.[] = String.[]
first_line (String.◌∷◌ c s) =
    if nat_eq (code c) b'\n' then String.[] else String.◌∷◌ c (first_line s)

pub tally-NoColon : (n : ℕ) → NoColon (tally n)
tally-NoColon zero = tt
tally-NoColon (suc n) = (omega arith, tally-NoColon n)

pub first_line-tally : (n : ℕ) → first_line (tally n <> "\n") ≡ tally n
first_line-tally zero = refl
first_line-tally (suc n) = rw cons-append (ap (String.◌∷◌ "1") (first_line-tally n))

abbrev pub sample_numerals : Numerals
sample_numerals = record {
  show = tally;
  number = λ s. some (count_marks s);
  trim = first_line;
  number-show = λ n _. ap some (count_marks-tally n);
  show-NoColon = λ n _. tally-NoColon n;
  trim-line = λ n _. first_line-tally n;
}

abbrev pub calm : StoreHost
calm = record { directory_made = true; readable = true; write = written; now = "noon" }

abbrev pub sample_host : Host
sample_host = record {
  observe = calm;
  record_host = calm;
  path_set = true;
  unit_made = true;
  spawned = some 3;
  pid_written = true;
  listed = true;
  pid_readable = true;
  reaction = λ _. exits 2;
  polls = 50;
  unit_removed = true;
  parent_removed = true;
}

abbrev pub empty_store : Store sample_codec
empty_store = record { memory = []; initialized = false; disk = none }

abbrev pub empty_world : World sample_codec
empty_world = record { store = empty_store; units = []; alive = 9 ∷ [] }

abbrev pub start_a : EnsureRequest
start_a = record {
  allocation_id = "a";
  sidecar_id = "s";
  generation = some 1;
  token = "t";
  hub_url = "u";
}

abbrev pub stop_a : DestroyRequest
stop_a = record { allocation_id = "a"; sidecar_id = "s"; generation = some 1; external_ref = none }

abbrev pub target_a : Target
target_a = record { allocation_id = "a"; sidecar_id = "s"; generation = 1 }

-- No other request runs.
abbrev pub alone : Others sample_codec
alone = record {
  once_observed = λ w. w;
  once_started = λ w. w;
  once_recorded = λ w. w;
  once_swept = λ w. w;
}
