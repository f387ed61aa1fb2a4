-- ===== src/Cli/Flags/Distinct.antt =====
-- The flags that `parse_flags` returns have distinct keys.
use lft.Base.{
  true, false, List, [], ◌∷◌, ◌++◌, none, some, ◌≡◌, refl, arith, Bytes, equal, equal_iff, sym,
  subst, if_cases, if_both, AllSome, AllSome->>=, cut_at, drop, is_some, Bool-cases, Option-cases,
  inl, inr,
}
use lft.Cli.Flags.{Flags, find, emplace, is_no_flag, parse_from, parse_flags}

-- No key stands in front of an equal one.
abbrev pub IsDistinct : Flags → Type 0
IsDistinct [] = Unit
IsDistinct ((key, value) ∷ flags) = (find key flags ≡ none) × IsDistinct flags

find-append_none :
    (key k v : Bytes) (flags : Flags)
    → find key flags ≡ none
    → equal k key ≡ false
    → find key (flags ++ (k, v) ∷ []) ≡ none
unfolding find
find-append_none key k v [] h e = rw e refl
find-append_none key k v ((k', v') ∷ flags) h e = elim (Bool-cases (equal k' key)) [
  | inl same ↦ absurd (ground arith)
  | inr other ↦ rw other (find-append_none key k v flags (ground arith) e)
]

equal-swap : (a b : Bytes) → equal a b ≡ false → equal b a ≡ false
equal-swap a b h = elim (Bool-cases (equal b a)) [
  | inl e ↦
      let e' : equal a b ≡ true = (equal_iff a b).1 (sym ((equal_iff b a).0 e)) in
      absurd (ground arith)
  | inr e ↦ e
]

find-cons_none :
    (key k v : Bytes) (flags : Flags)
    → find key ((k, v) ∷ flags) ≡ none
    → (equal k key ≡ false) × (find key flags ≡ none)
unfolding find
find-cons_none key k v flags h = elim (Bool-cases (equal k key)) [
  | inl same ↦ absurd (ground arith)
  | inr other ↦ (other, ground arith)
]

append-IsDistinct :
    (flags : Flags) (key value : Bytes)
    → IsDistinct flags
    → find key flags ≡ none
    → IsDistinct (flags ++ (key, value) ∷ [])
unfolding find
append-IsDistinct [] key value d h = (refl, tt)
append-IsDistinct ((k, v) ∷ flags) key value d h =
    let (other, later) = find-cons_none key k v flags h in
    (
      find-append_none k key value flags d.0 (equal-swap k key other),
      append-IsDistinct flags key value d.1 later,
    )

emplace-IsDistinct :
    (key value : Bytes) (flags : Flags)
    → IsDistinct flags
    → AllSome IsDistinct (emplace key value flags)
unfolding emplace
emplace-IsDistinct key value flags d =
    if_cases (AllSome IsDistinct) (is_some (find key flags)) (λ e. tt)
      (λ e. append-IsDistinct flags key value d (ground arith))

parse_from-IsDistinct :
    (flags : Flags) (args : List Bytes)
    → IsDistinct flags
    → AllSome IsDistinct (parse_from flags args)
unfolding parse_from
parse_from-IsDistinct flags [] d = d
parse_from-IsDistinct flags (tok ∷ []) d =
    if_both (AllSome IsDistinct) (is_no_flag tok) tt
      (elim (Option-cases (cut_at b'=' (drop 2 tok))) [
        | inl e ↦ rw e tt
        | inr ((key, value), e) ↦ rw e (emplace-IsDistinct key value flags d)
      ])
parse_from-IsDistinct flags (tok ∷ next ∷ args) d =
    if_both (AllSome IsDistinct) (is_no_flag tok) tt
      (elim (Option-cases (cut_at b'=' (drop 2 tok))) [
        | inl e ↦ rw e (
            AllSome->>= IsDistinct IsDistinct (emplace (drop 2 tok) next flags) _
              (emplace-IsDistinct (drop 2 tok) next flags d)
              (λ more m. parse_from-IsDistinct more args m))
        | inr ((key, value), e) ↦ rw e (
            AllSome->>= IsDistinct IsDistinct (emplace key value flags) _
              (emplace-IsDistinct key value flags d)
              (λ more m. parse_from-IsDistinct more (next ∷ args) m))
      ])

-- Whatever the arguments are: no flag is accepted twice.
parse_flags-IsDistinct :
    (args : List Bytes) (fs : Flags) → parse_flags args ≡ some fs → IsDistinct fs
unfolding parse_flags
parse_flags-IsDistinct args fs h = subst (AllSome IsDistinct) h (parse_from-IsDistinct [] args tt)
