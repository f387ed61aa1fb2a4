-- ===== src/Handles.antt =====
-- The msquic objects that a program holds, and the discipline of their release: the object opened
-- last is closed first.
use lft.Base.{
  ℕ, Bool, true, false, List, [], ◌∷◌, ◌++◌, Option, none, some, ◌≡◌, refl, ap, ◌∙◌, ◌==◌,
  if◌then◌else◌, ◌>>=◌,
}

pub data Handle : Type 0 where
  api_table : Handle
  registration configuration listener connection : ℕ → Handle

-- A successful open, or a close.
pub data Op : Type 0 where
  opened closed : Handle → Op

abbrev pub is_same : Handle → Handle → Bool
is_same api_table api_table = true
is_same (registration a) (registration b) = a == b
is_same (configuration a) (configuration b) = a == b
is_same (listener a) (listener b) = a == b
is_same (connection a) (connection b) = a == b
is_same _ _ = false

-- What is held after an operation; `none` if something else is closed than what was opened last.
unfoldable pub apply_op : Op → List Handle → Option (List Handle)
apply_op (opened h) held = some (h ∷ held)
apply_op (closed h) [] = none
apply_op (closed h) (g ∷ held) = if is_same h g then some held else none

unfoldable held_from : List Handle → List Op → Option (List Handle)
held_from held [] = some held
held_from held (op ∷ ops) = apply_op op held >>= λ next. held_from next ops

-- What is held after the operations, from nothing.
unfoldable pub held_after : List Op → Option (List Handle)
unfolding held_from
held_after ops = held_from [] ops

bind_some : (m : Option (List Handle)) → (m >>= λ x. some x) ≡ m
bind_some none = refl
bind_some (some x) = refl

bind-snoc :
    (m : Option (List Handle)) (ops : List Op) (op : Op)
    → ((held : List Handle)
        → held_from held (ops ++ op ∷ []) ≡ (held_from held ops >>= apply_op op))
    → (m >>= λ held. held_from held (ops ++ op ∷ []))
      ≡ ((m >>= λ held. held_from held ops) >>= apply_op op)
bind-snoc none ops op rest = refl
bind-snoc (some held) ops op rest = rest held

held_from-snoc :
    (held : List Handle) (ops : List Op) (op : Op)
    → held_from held (ops ++ op ∷ []) ≡ (held_from held ops >>= apply_op op)
unfolding held_from
held_from-snoc held [] op = bind_some (apply_op op held)
held_from-snoc held (o ∷ ops) op =
    bind-snoc (apply_op o held) ops op (λ next. held_from-snoc next ops op)

pub held_after-snoc :
    (ops : List Op) (op : Op) (held : List Handle)
    → held_after ops ≡ some held
    → held_after (ops ++ op ∷ []) ≡ apply_op op held
unfolding held_after
held_after-snoc ops op held h = held_from-snoc [] ops op ∙ ap (λ m. m >>= apply_op op) h

-- The object that a pointer points to.
abbrev pub one {ℓ} : {A : Type ℓ} → (A → Handle) → Option A → List Handle
one f none = []
one f (some a) = f a ∷ []

abbrev pub held_api : Bool → List Handle
held_api false = []
held_api true = api_table ∷ []
