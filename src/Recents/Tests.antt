-- ===== src/Recents/Tests.antt =====
-- A run of the recent entries.
use workbench.Needs.{Json, rows}
use workbench.Prelude.{◌≡◌, refl, String, true, none, some, List, [], ◌∷◌, map, lookup}
use workbench.Recents.{RecentEntry, load_recents, push_recent}
use workbench.Recents.Pushed.{IsPushed, push_recent-IsPushed}

abbrev plain : Json RecentEntry
plain = record {
  Contents = List RecentEntry;
  stringify = λ es. es;
  parse = λ es. rows (map some es);
  parse-stringify = λ es. refl;
}

abbrev entry : String → RecentEntry
entry id = record { kind = "page"; id = id; title = id; subtitle = none }

push_recent-IsPushed_example :
    IsPushed 2
      (entry "a")
      (push_recent plain "k" 2 true (entry "a") (("k", entry "b" ∷ entry "a" ∷ []) ∷ [])).0
    × (load_recents plain "k" 2
          (push_recent plain "k" 2 true (entry "a") (("k", entry "b" ∷ entry "a" ∷ []) ∷ [])).1
        ≡ (push_recent plain "k" 2 true (entry "a") (("k", entry "b" ∷ entry "a" ∷ []) ∷ [])).0)
push_recent-IsPushed_example =
    push_recent-IsPushed plain "k" 1 (entry "a") (("k", entry "b" ∷ entry "a" ∷ []) ∷ [])

moved_up :
    (push_recent plain "k" 2 true (entry "a") (("k", entry "b" ∷ entry "a" ∷ []) ∷ [])).0
    ≡ entry "a" ∷ entry "b" ∷ []
unfolding push_recent lookup
moved_up = refl

-- A colon in a kind makes two entries of one key.
one_key :
    (push_recent plain "k" 2 true
      (record { kind = "a"; id = "b:c"; title = ""; subtitle = none })
      (("k", record { kind = "a:b"; id = "c"; title = ""; subtitle = none } ∷ []) ∷ [])).0
    ≡ record { kind = "a"; id = "b:c"; title = ""; subtitle = none } ∷ []
unfolding push_recent lookup
one_key = refl
