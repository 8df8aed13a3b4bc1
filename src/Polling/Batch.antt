-- ===== src/Polling/Batch.antt =====
-- polling.go: the batch of commands that takeLatestConfigCommands gives.
use spf5000es_server.Prelude.{
  ◌≡◌, refl, sym, ap, ◌∙◌, Bool, true, false, not, ◌&&◌, Option, none, some, List, [], ◌∷◌, ◌++◌,
  append-nil, map, if◌then◌else◌, String, lookup, insert, lookup-nil, lookup-insert, lookup-nil,
  eq_string, arith, Option-cases, Bool-cases, inl, inr,
}
use spf5000es_server.Polling.{ConfigWriteCommand, collect, take_latest, or_zero}

-- The keys that pass a test.
unfoldable pub keep : (String → Bool) → List String → List String
keep p [] = []
keep p (k ∷ ks) = let rest = keep p ks in if p k then k ∷ rest else rest

-- The keys, each at its first command.
unfoldable pub first_keys : List ConfigWriteCommand → List String
unfolding keep
first_keys [] = []
first_keys (command ∷ commands) =
    command.key ∷ keep (λ k. not (eq_string command.key k)) (first_keys commands)

-- The last command of a key, or else another one.
unfoldable pub last_command :
    String → Option ConfigWriteCommand → List ConfigWriteCommand → Option ConfigWriteCommand
last_command key earlier [] = earlier
last_command key earlier (command ∷ commands) =
    last_command key (if eq_string command.key key then some command else earlier) commands

abbrev Latest : Type 0
Latest = List (String × ConfigWriteCommand)

lookup-collect :
    (key : String) (commands : List ConfigWriteCommand) (order : List String) (latest : Latest)
    → lookup key (collect commands order latest).1 ≡ last_command key (lookup key latest) commands
unfolding collect last_command
lookup-collect key [] order latest = refl
lookup-collect key (c ∷ cs) order latest =
    rw (← lookup-insert c.key key c latest) (lookup-collect key cs _ _)

abbrev is_none : Option ConfigWriteCommand → Bool
is_none none = true
is_none (some c) = false

abbrev absent : Latest → String → Bool
absent latest key = is_none (lookup key latest)

absent-insert :
    (c : ConfigWriteCommand) (latest : Latest) (key : String)
    → absent (insert c.key c latest) key ≡ (not (eq_string c.key key) && absent latest key)
absent-insert c latest key =
    rw (lookup-insert c.key key c latest)
      (elim (Bool-cases (eq_string c.key key)) [ inl e ↦ rw e refl | inr e ↦ rw e refl ])

keep-keep :
    (p q r : String → Bool) (ks : List String)
    → ((k : String) → r k ≡ (q k && p k))
    → keep p (keep q ks) ≡ keep r ks
unfolding keep
keep-keep p q r [] same = refl
keep-keep p q r (k ∷ ks) same = ground (arith, same k, keep-keep p q r ks same)

append-one : (xs ys : List String) (x : String) → (xs ++ x ∷ []) ++ ys ≡ xs ++ x ∷ ys
append-one [] ys x = refl
append-one (y ∷ xs) ys x = ap (λ l. y ∷ l) (append-one xs ys x)

keep-absent :
    (latest : Latest) (ks : List String) (p : String → Bool)
    → ((k : String) → p k ≡ absent latest k)
    → keep p ks ≡ keep (absent latest) ks
unfolding keep
keep-absent latest [] p same = refl
keep-absent latest (k ∷ ks) p same = ground (arith, same k, keep-absent latest ks p same)

-- A key that was seen is not repeated, and a new one is put at the end.
order-collect :
    (commands : List ConfigWriteCommand) (order : List String) (latest : Latest)
    → (collect commands order latest).0 ≡ order ++ keep (absent latest) (first_keys commands)
unfolding collect first_keys
order-collect [] order latest = unfold keep in sym (append-nil order)
order-collect (c ∷ cs) order latest =
    let seen = insert c.key c latest in
    let other = λ (k : String). not (eq_string c.key k) in
    let same : keep (absent latest) (keep other (first_keys cs))
        ≡ keep (absent seen) (first_keys cs) =
      keep-keep (absent latest) other (λ k. other k && absent latest k) (first_keys cs) (λ k. refl)
      ∙ keep-absent seen (first_keys cs) (λ k. other k && absent latest k)
          (λ k. sym (absent-insert c latest k)) in
    elim (Option-cases (lookup c.key latest)) [
      | inl e ↦
          rw (e, collect, keep)
            (order-collect cs (order ++ c.key ∷ []) seen
              ∙ append-one order (keep (absent seen) (first_keys cs)) c.key
              ∙ ap (λ l. order ++ c.key ∷ l) (sym same))
      | inr (d, e) ↦
          rw (e, collect, keep) (order-collect cs order seen ∙ ap (λ l. order ++ l) (sym same))
    ]

keep_all : (ks : List String) → keep (absent []) ks ≡ ks
unfolding keep
keep_all [] = refl
keep_all (k ∷ ks) = rw (lookup-nil {V = ConfigWriteCommand} k, keep) (ap (λ l. k ∷ l) (keep_all ks))

map-same :
    (f g : String → ConfigWriteCommand) (ks : List String)
    → ((k : String) → f k ≡ g k)
    → map f ks ≡ map g ks
map-same f g [] same = refl
map-same f g (k ∷ ks) same = cc (same k, map-same f g ks same)

-- takeLatestConfigCommands gives, for each key in the order of the keys' first commands and each
-- once, the last command of that key.
pub take_latest-last_command :
    (commands : List ConfigWriteCommand)
    → take_latest commands
      ≡ map (λ key. or_zero (last_command key none commands)) (first_keys commands)
unfolding take_latest
take_latest-last_command commands =
    map-same _ _ (collect commands [] []).0 (λ k.
      ap or_zero
        (lookup-collect k commands [] [] ∙ ap (λ o. last_command k o commands) (lookup-nil k)))
    ∙ ap (map (λ key. or_zero (last_command key none commands)))
        (order-collect commands [] [] ∙ keep_all (first_keys commands))
