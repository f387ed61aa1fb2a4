-- ===== src/Cli/Flags/RoundTrip.antt =====
-- Spelled flags are read back.
use lft.Base.{
  Bool, false, List, [], ◌∷◌, ◌++◌, map, none, some, ◌≡◌, refl, ap, sym, append-nil, ◌∙◌, arith,
  Bytes, codes, cut_at, cut_at-append, Lacks, length, drop, append_assoc, if◌then◌else◌, if_both,
  subst, ◌≢◌, cut_at-none, starts_with, ltb,
}
use lft.Cli.Flags.{Flags, find, emplace, is_no_flag, parse_from, parse_flags}

-- A flag on the command line, with '=' or as two tokens.
pub record Spelling : Type 0 where
  pub key : Bytes
  pub value : Bytes
  pub joined : Bool

abbrev pub tokens : Spelling → List Bytes
tokens f =
    if f.joined
    then (codes "--" ++ (f.key ++ b'=' ∷ f.value)) ∷ []
    else (codes "--" ++ f.key) ∷ f.value ∷ []

abbrev pub spell : List Spelling → List Bytes
spell [] = []
spell (f ∷ fs) = tokens f ++ spell fs

abbrev pub entry : Spelling → Bytes × Bytes
entry f = (f.key, f.value)

-- The keys are not empty, have no '=', and each is new behind those that stand in front of it.
abbrev pub IsSpellable : Flags → List Spelling → Type 0
IsSpellable flags [] = Unit
IsSpellable flags (f ∷ fs) =
    (f.key ≢ [])
    × Lacks b'=' f.key
    × (find f.key flags ≡ none)
    × IsSpellable (flags ++ entry f ∷ []) fs

emplace-new :
    (key value : Bytes) (flags : Flags)
    → find key flags ≡ none
    → emplace key value flags ≡ some (flags ++ (key, value) ∷ [])
unfolding emplace
emplace-new key value flags h = rw h refl

-- The token of a flag is one.
flag-IsFlag : (key rest : Bytes) → key ≢ [] → is_no_flag (codes "--" ++ (key ++ rest)) ≡ false
unfolding is_no_flag starts_with
flag-IsFlag [] rest h = absurd (h refl)
flag-IsFlag (c ∷ key) rest h =
    let e : ltb (length (codes "--" ++ (c ∷ key ++ rest))) 3 ≡ false = ground arith in rw e refl

parse_from-joined :
    (flags more : Flags) (tok key value : Bytes) (args : List Bytes)
    → is_no_flag tok ≡ false
    → cut_at b'=' (drop 2 tok) ≡ some (key, value)
    → emplace key value flags ≡ some more
    → parse_from flags (tok ∷ args) ≡ parse_from more args
unfolding parse_from
parse_from-joined flags more tok key value [] h c e = rw (h, c, e) refl
parse_from-joined flags more tok key value (next ∷ args) h c e = rw (h, c, e) refl

parse_from-split :
    (flags more : Flags) (tok value : Bytes) (args : List Bytes)
    → is_no_flag tok ≡ false
    → cut_at b'=' (drop 2 tok) ≡ none
    → emplace (drop 2 tok) value flags ≡ some more
    → parse_from flags (tok ∷ value ∷ args) ≡ parse_from more args
unfolding parse_from
parse_from-split flags more tok value args h c e = rw (h, c, e) refl

parse_from-tokens :
    (flags : Flags) (f : Spelling) (args : List Bytes)
    → f.key ≢ []
    → Lacks b'=' f.key
    → find f.key flags ≡ none
    → parse_from flags (tokens f ++ args) ≡ parse_from (flags ++ entry f ∷ []) args
parse_from-tokens flags f args ne lacks new =
    let more = flags ++ entry f ∷ [] in
    let added = emplace-new f.key f.value flags new in
    let split =
      subst (λ k. is_no_flag (codes "--" ++ k) ≡ false) (append-nil f.key)
        (flag-IsFlag f.key [] ne) in
    if_both (λ ts. parse_from flags (ts ++ args) ≡ parse_from more args) f.joined
      (parse_from-joined flags more _ f.key f.value args (flag-IsFlag f.key (b'=' ∷ f.value) ne)
        (cut_at-append b'=' f.key f.value lacks) added)
      (parse_from-split flags more (codes "--" ++ f.key) f.value args split
        (cut_at-none b'=' f.key lacks) added)

parse_from-spell :
    (flags : Flags) (fs : List Spelling)
    → IsSpellable flags fs
    → parse_from flags (spell fs) ≡ some (flags ++ map entry fs)
unfolding parse_from
parse_from-spell flags [] h = ap some (sym (append-nil flags))
parse_from-spell flags (f ∷ fs) (ne, lacks, new, rest) =
    parse_from-tokens flags f (spell fs) ne lacks new
    ∙ (parse_from-spell (flags ++ entry f ∷ []) fs rest
        ∙ ap some (append_assoc flags (entry f ∷ []) (map entry fs)))

-- Flags with distinct keys, which are not empty and have no '=', are read back as they are given,
-- in order, each spelled `--key=value` or `--key value`, with any values.
pub parse_flags-spell :
    (fs : List Spelling) → IsSpellable [] fs → parse_flags (spell fs) ≡ some (map entry fs)
unfolding parse_flags
parse_flags-spell fs h = parse_from-spell [] fs h
