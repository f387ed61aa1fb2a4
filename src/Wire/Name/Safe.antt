-- ===== src/Wire/Name/Safe.antt =====
-- What a sanitized name is: a plain file name, which a second pass leaves as it is.
use lft.Base.{
  ℕ, ◌≤◌, false, [], ◌∷◌, map, ◌≡◌, ◌≢◌, refl, ◌⊎◌, inl, inr, arith, Bytes, codes, equal, equal_iff,
  contains, All, Lacks, Bool-cases,
}
use lft.Wire.Name.{
  filename, is_space, trim_front, keep_back, trim_back, replace_control, useless, fallback_name,
  sanitize_file_name,
}

-- A byte that can neither break the header's lines nor lead out of a directory.
abbrev pub IsPlain : ℕ → Type 0
IsPlain c = (32 ≤ c) × (c ≢ b'/') × (c ≢ b'\\')

-- The name of an entry of a directory.
pub record IsFileName (n : Bytes) : Type 0 where
  pub ne_nil : n ≢ []
  pub ne_dot : n ≢ codes "."
  pub ne_dot_dot : n ≢ codes ".."
  pub plain : All IsPlain n

abbrev FrontKept : Bytes → Type 0
FrontKept [] = Unit {0}
FrontKept (c ∷ s) = is_space c ≡ false

abbrev BackKept : Bytes → Type 0
BackKept [] = Unit {0}
BackKept (c ∷ []) = is_space c ≡ false
BackKept (c ∷ x ∷ s) = BackKept (x ∷ s)

-- No white space at either end.
abbrev pub IsTrimmed : Bytes → Type 0
IsTrimmed n = FrontKept n × BackKept n

trim_front-FrontKept : (s : Bytes) → FrontKept (trim_front s)
unfolding trim_front
trim_front-FrontKept [] = tt
trim_front-FrontKept (c ∷ s) = ground (arith, trim_front-FrontKept s)

trim_back-BackKept : (s : Bytes) → BackKept (trim_back s)
unfolding trim_back
trim_back-BackKept [] = tt
trim_back-BackKept (c ∷ s) = keep_back-BackKept (trim_back s) (trim_back-BackKept s)
  where
    keep_back-BackKept : (r : Bytes) → BackKept r → BackKept (keep_back c r)
    keep_back-BackKept [] h = ground arith
    keep_back-BackKept (x ∷ r) h = h

trim_back-FrontKept : (s : Bytes) → FrontKept s → FrontKept (trim_back s)
unfolding trim_back
trim_back-FrontKept [] h = tt
trim_back-FrontKept (c ∷ s) h = keep_back-FrontKept (trim_back s)
  where
    keep_back-FrontKept : (r : Bytes) → FrontKept (keep_back c r)
    keep_back-FrontKept [] = ground arith
    keep_back-FrontKept (x ∷ r) = h

trim_front-eq : (s : Bytes) → FrontKept s → trim_front s ≡ s
unfolding trim_front
trim_front-eq [] h = refl
trim_front-eq (c ∷ s) h = rw h

trim_back-eq : (s : Bytes) → BackKept s → trim_back s ≡ s
unfolding trim_back
trim_back-eq [] h = refl
trim_back-eq (c ∷ []) h = rw h
trim_back-eq (c ∷ x ∷ s) h = rw (trim_back-eq (x ∷ s) h)

replace_control-IsPlain : (c : ℕ) → IsPlain (replace_control c)
unfolding replace_control
replace_control-IsPlain c = ground arith

replace_control-eq : (c : ℕ) → IsPlain c → replace_control c ≡ c
unfolding replace_control
replace_control-eq c h = ground arith

replace_control-kept : (c : ℕ) → is_space c ≡ false → is_space (replace_control c) ≡ false
unfolding replace_control is_space
replace_control-kept c h = ground arith

map-All-IsPlain : (s : Bytes) → All IsPlain (map replace_control s)
map-All-IsPlain [] = tt
map-All-IsPlain (c ∷ s) = (replace_control-IsPlain c, map-All-IsPlain s)

map-eq : (s : Bytes) → All IsPlain s → map replace_control s ≡ s
map-eq [] h = refl
map-eq (c ∷ s) h = cc (replace_control-eq c h.0, map-eq s h.1)

map-FrontKept : (s : Bytes) → FrontKept s → FrontKept (map replace_control s)
map-FrontKept [] h = tt
map-FrontKept (c ∷ s) h = replace_control-kept c h

map-BackKept : (s : Bytes) → BackKept s → BackKept (map replace_control s)
map-BackKept [] h = tt
map-BackKept (c ∷ []) h = replace_control-kept c h
map-BackKept (c ∷ x ∷ s) h = map-BackKept (x ∷ s) h

contains-eq_of_Lacks : (c : ℕ) (s : Bytes) → Lacks c s → contains c s ≡ false
unfolding contains
contains-eq_of_Lacks c [] h = refl
contains-eq_of_Lacks c (x ∷ s) h = ground (arith, contains-eq_of_Lacks c s h.1)

filename-eq : (s : Bytes) → Lacks b'/' s → filename s ≡ s
unfolding filename
filename-eq [] h = refl
filename-eq (c ∷ s) h = ground (arith, contains-eq_of_Lacks b'/' s h.1)

plain_Lacks_slash : (s : Bytes) → All IsPlain s → Lacks b'/' s
plain_Lacks_slash [] h = tt
plain_Lacks_slash (c ∷ s) h = (h.0.1, plain_Lacks_slash s h.1)

pub plain_Lacks_newline : (s : Bytes) → All IsPlain s → Lacks b'\n' s
plain_Lacks_newline [] h = tt
plain_Lacks_newline (c ∷ s) h = (omega arith, plain_Lacks_newline s h.1)

useless-false : (n : Bytes) → n ≢ [] → n ≢ codes "." → n ≢ codes ".." → useless n ≡ false
unfolding useless
useless-false n a b c =
    ground (arith, equal_iff n [], equal_iff n (codes "."), equal_iff n (codes ".."))

-- A file name with no white space at its ends is left as it is.
pub sanitize_file_name-eq : (n : Bytes) → IsFileName n → IsTrimmed n → sanitize_file_name n ≡ n
unfolding sanitize_file_name
sanitize_file_name-eq n f t =
    rw
      (
        filename-eq n (plain_Lacks_slash n f.plain),
        trim_front-eq n t.0,
        trim_back-eq n t.1,
        useless-false n f.ne_nil f.ne_dot f.ne_dot_dot,
      )
      (map-eq n f.plain)

-- The replacement makes no name useless that was not.
map_ne_nil : (s : Bytes) → useless s ≡ false → map replace_control s ≢ []
unfolding useless equal
map_ne_nil [] h = cc
map_ne_nil (c ∷ s) h = cc

map_ne_dot : (s : Bytes) → useless s ≡ false → map replace_control s ≢ codes "."
unfolding useless equal replace_control
map_ne_dot [] h = cc
map_ne_dot (c ∷ []) h = ground arith
map_ne_dot (c ∷ x ∷ s) h = cc

map_ne_dot_dot : (s : Bytes) → useless s ≡ false → map replace_control s ≢ codes ".."
unfolding useless equal replace_control
map_ne_dot_dot [] h = cc
map_ne_dot_dot (c ∷ []) h = cc
map_ne_dot_dot (c ∷ x ∷ []) h = ground arith
map_ne_dot_dot (c ∷ x ∷ y ∷ s) h = cc

fallback_name-IsFileName : IsFileName fallback_name
fallback_name-IsFileName = record { ne_nil = cc; ne_dot = cc; ne_dot_dot = cc; plain = omega arith }

fallback_name-IsTrimmed : IsTrimmed fallback_name
unfolding is_space
fallback_name-IsTrimmed = (refl, refl)

trimmed : Bytes → Bytes
trimmed raw = trim_back (trim_front (filename raw))

sanitize_file_name-cases :
    (raw : Bytes)
    → (sanitize_file_name raw ≡ fallback_name)
      ⊎ ((useless (trimmed raw) ≡ false)
          × (sanitize_file_name raw ≡ map replace_control (trimmed raw)))
unfolding sanitize_file_name trimmed
sanitize_file_name-cases raw = elim (Bool-cases (useless (trimmed raw))) [
  | inl e ↦ inl (rw e)
  | inr e ↦ inr (e, rw e)
]

-- The name of an entry of a directory, whatever the raw name is.
pub sanitize_file_name-IsFileName : (raw : Bytes) → IsFileName (sanitize_file_name raw)
sanitize_file_name-IsFileName raw = elim (sanitize_file_name-cases raw) [
  | inl e ↦ rw e fallback_name-IsFileName
  | inr (u, e) ↦ rw e (record {
    ne_nil = map_ne_nil _ u;
    ne_dot = map_ne_dot _ u;
    ne_dot_dot = map_ne_dot_dot _ u;
    plain = map-All-IsPlain (trimmed raw);
  })
]

pub sanitize_file_name-IsTrimmed : (raw : Bytes) → IsTrimmed (sanitize_file_name raw)
unfolding trimmed
sanitize_file_name-IsTrimmed raw = elim (sanitize_file_name-cases raw) [
  | inl e ↦ rw e fallback_name-IsTrimmed
  | inr (u, e) ↦
      let name = trim_front (filename raw) in
      rw e (
        map-FrontKept _ (trim_back-FrontKept name (trim_front-FrontKept (filename raw))),
        map-BackKept (trim_back name) (trim_back-BackKept name),
      )
]

-- A sanitized name is the name of an entry of a directory, whatever the raw name is: it is not
-- empty, not "." or "..", and has no slash, no backslash and no byte below 32; and no white space
-- is at its ends. A name that is like this already is left as it is, so that DEL (127), the one
-- control character of ASCII from 32 on, passes.
pub sanitize_file_name_cleans :
    (raw : Bytes)
    → IsFileName (sanitize_file_name raw)
      × (IsTrimmed (sanitize_file_name raw)
          × (IsFileName raw → IsTrimmed raw → sanitize_file_name raw ≡ raw))
sanitize_file_name_cleans raw = (
  sanitize_file_name-IsFileName raw,
  (sanitize_file_name-IsTrimmed raw, sanitize_file_name-eq raw),
)

-- Sanitizing a sanitized name changes nothing, so sender and receiver agree on it.
pub sanitize_file_name_idem :
    (raw : Bytes) → sanitize_file_name (sanitize_file_name raw) ≡ sanitize_file_name raw
sanitize_file_name_idem raw =
    sanitize_file_name-eq _ (sanitize_file_name-IsFileName raw) (sanitize_file_name-IsTrimmed raw)
