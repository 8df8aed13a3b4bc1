-- ===== src/Mqtt/Topics/Routing.antt =====
-- mqtt.go: the command topics of the registers against handleCommand's routing.
use spf5000es_server.Prelude.{
  ◌+◌, ◌-◌, ◌≡◌, refl, Bool, true, false, Option, none, some, List, [], ◌∷◌, ◌++◌, append_assoc,
  Text, String, codes, eq_text, eq_string, length, All, all, arith, leb, length-append,
  take-append_self, drop-append_self, eq_text_refl, eq_string_iff, ap, ◌∙◌,
}
use mathlib.Core.Path.{subst}
use spf5000es_server.Value.{ParseFloat}
use spf5000es_server.Register.Holdings.{holding_registers}
use spf5000es_server.Strings.{has_prefix, has_suffix, slice, trim}
use spf5000es_server.Register.{RegisterDef}
use spf5000es_server.Register.Windows.{find_register}
use spf5000es_server.Register.Windows.Finding.{find_register-All, find_register-key}
use spf5000es_server.Mqtt.Topics.{
  slug, config_key_of, route, route_level, Route, config_key, config_prefix, time_sync_command,
  command_topic,
}

abbrev is_key : Option String → String → Bool
is_key none key = false
is_key (some found) key = eq_string found key

slugs_distinct :
    (parse_float : ParseFloat)
    → all
        (λ d. is_key (config_key_of (slug (codes d.key)) (holding_registers parse_float)) d.key)
        (holding_registers parse_float)
      ≡ true
unfolding config_key_of holding_registers trim
slugs_distinct parse_float = refl

has_prefix-append : (xs ys : Text) → has_prefix (xs ++ ys) xs ≡ true
unfolding has_prefix
has_prefix-append xs ys =
    rw (take-append_self xs ys, length-append xs ys, eq_text_refl xs) (ground arith)

has_suffix-append : (xs ys : Text) → has_suffix (xs ++ ys) ys ≡ true
unfolding has_suffix
has_suffix-append xs ys =
    let cut : length xs + length ys - length ys ≡ length xs = omega arith in
    rw (length-append xs ys, cut, drop-append_self xs ys, eq_text_refl ys) (ground arith)

-- The middle of three parts.
slice-middle :
    (xs ys zs : Text)
    → slice (length xs) (length (xs ++ (ys ++ zs)) - length zs) (xs ++ (ys ++ zs)) ≡ some ys
unfolding slice
slice-middle xs ys zs =
    let cut : length xs + (length ys + length zs) - length zs ≡ length xs + length ys =
      omega arith in
    let middle : length xs + length ys - length xs ≡ length ys = omega arith in
    let low : leb (length xs) (length xs + length ys) ≡ true = ground arith in
    let high : leb (length xs + length ys) (length xs + (length ys + length zs)) ≡ true =
      ground arith in
    rw
      (
        length-append xs (ys ++ zs),
        length-append ys zs,
        cut,
        low,
        high,
        middle,
        drop-append_self xs (ys ++ zs),
        take-append_self ys zs,
      )
      refl

eq_text-append : (xs ys zs : Text) → eq_text (xs ++ ys) (xs ++ zs) ≡ eq_text ys zs
eq_text-append [] ys zs = refl
eq_text-append (x ∷ xs) ys zs = ground (arith, eq_text-append xs ys zs)

-- A topic that is the config prefix, a level and the suffix of a command is routed by that level
-- alone, for every level, and so its slice does not panic.
pub route-level :
    (base level : Text) (registers : List RegisterDef)
    → route base registers (config_prefix base ++ level ++ codes "/set")
      ≡ route_level (some level) registers
unfolding route
route-level base level registers =
    let prefix = config_prefix base in
    let suffix = codes "/set" in
    let split : prefix ++ level ++ suffix ≡ prefix ++ (level ++ suffix) =
      append_assoc prefix level suffix in
    let other : eq_text (prefix ++ (level ++ suffix)) (time_sync_command base) ≡ false =
      rw (append_assoc base (codes "/config/") (level ++ suffix))
        (eq_text-append base (codes "/config/" ++ (level ++ suffix)) (codes "/time_sync/set")) in
    let ends : has_suffix (prefix ++ (level ++ suffix)) suffix ≡ true =
      rw (← split) (has_suffix-append (prefix ++ level) suffix) in
    rw
      (
        split,
        other,
        has_prefix-append prefix (level ++ suffix),
        ends,
        slice-middle prefix level suffix,
      )
      refl

pub all-All :
    (p : RegisterDef → Bool) (ds : List RegisterDef) → all p ds ≡ true → All (λ d. p d ≡ true) ds
all-All p [] h = tt
all-All p (d ∷ ds) h = (ground arith, all-All p ds (ground arith))

is_key-some : (o : Option String) (key : String) → is_key o key ≡ true → o ≡ some key
is_key-some none key h = cc
is_key-some (some found) key h = ap some ((eq_string_iff found key).0 h)

routed :
    (o : Option String) (key : String)
    → o ≡ some key
    → (elim o as (λ _. Route) [ none ↦ Route.unknown_key | some k ↦ config_key k ]) ≡ config_key key
routed o key e = rw e refl

-- The command topic of a holding register that is found in the table is routed to that register's
-- key.
pub route-command_topic :
    (parse_float : ParseFloat) (base : Text) (key : String) (d : RegisterDef)
    → find_register key (holding_registers parse_float) ≡ some d
    → route base (holding_registers parse_float) (command_topic base key) ≡ config_key key
unfolding command_topic
route-command_topic parse_float base key d found =
    let table = holding_registers parse_float in
    let check =
      find_register-All (λ d. is_key (config_key_of (slug (codes d.key)) table) d.key ≡ true) key
        table d (all-All _ table (slugs_distinct parse_float)) found in
    let keyed = is_key-some _ d.key check in
    let same = find_register-key key table d found in
    route-level base (slug (codes key)) table
    ∙ routed (config_key_of (slug (codes key)) table) key
        (subst (λ (k : String). config_key_of (slug (codes k)) table ≡ some k) same keyed)
