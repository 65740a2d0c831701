-- ===== src/Executor/Lock.antt =====
-- SetNX and Del of backend/internal/redis/redis.go on the keys of lockKey in
-- backend/cmd/executor/main.go. The clock counts milliseconds.
use pairly.Prelude.{
  ℕ, ◌+◌, ◌*◌, ◌<◌, ◌≡◌, refl, ◌∙◌, inl, inr, Bool, true, false, not, ◌&&◌, List, [], ◌∷◌, arith,
  ltb, if◌then◌else◌, string_eq, nat_eq, Bool-cases, ◌==◌, ==_iff, keep, any,
}

-- A key "exec:lock:<room>:<file>" with the time at which Redis drops it.
pub record Lock : Type 0 where
  pub room_id : ℕ
  pub file_id : ℕ
  pub expires : ℕ

abbrev pub is_lock : ℕ → ℕ → Lock → Bool
is_lock room_id file_id l = l.room_id == room_id && l.file_id == file_id

-- Is the key there at the time?
unfoldable pub is_held : ℕ → ℕ → ℕ → List Lock → Bool
is_held now room_id file_id locks = any (λ l. is_lock room_id file_id l && ltb now l.expires) locks

unfoldable pub del : ℕ → ℕ → List Lock → List Lock
del room_id file_id locks = keep (λ l. not (is_lock room_id file_id l)) locks

-- SET key NX EX seconds: whether the key was set.
unfoldable pub set_nx : ℕ → ℕ → ℕ → ℕ → List Lock → Bool × List Lock
set_nx now room_id file_id seconds locks =
    if is_held now room_id file_id locks then (false, locks) else (
      true,
      record { room_id = room_id; file_id = file_id; expires = now + seconds * 1000 }
          ∷ del room_id file_id locks,
    )

-- What a key's deletion, and its setting, make of the other keys.
pub is_held-del :
    (now room file r f : ℕ) (locks : List Lock)
    → (r == room && f == file) ≡ false
    → is_held now r f (del room file locks) ≡ is_held now r f locks
unfolding is_held del any keep
is_held-del now room file r f [] h = refl
is_held-del now room file r f (l ∷ locks) h = ground (arith, is_held-del now room file r f locks h)

is_held_same :
    (now room file r f : ℕ) (locks : List Lock)
    → (r == room && f == file) ≡ true
    → is_held now r f locks ≡ is_held now room file locks
is_held_same now room file r f locks h = grind (arith, ==_iff r room, ==_iff f file)

is_held-cons :
    (now r f : ℕ) (l : Lock) (locks : List Lock)
    → is_held now r f locks ≡ true
    → is_held now r f (l ∷ locks) ≡ true
unfolding is_held any
is_held-cons now r f l locks h = ground arith

pub is_held-set_nx :
    (now room file seconds r f : ℕ) (locks : List Lock)
    → is_held now r f locks ≡ true
    → is_held now r f (set_nx now room file seconds locks).1 ≡ true
unfolding set_nx
is_held-set_nx now room file seconds r f locks h = elim (Bool-cases (is_held now room file locks)) [
  | inl e ↦ rw e h
  | inr e ↦ elim (Bool-cases (r == room && f == file)) [
    | inl q ↦ absurd (ground (arith, is_held_same now room file r f locks q))
    | inr q ↦
        rw e
          (is_held-cons now r f _ (del room file locks) (is_held-del now room file r f locks q ∙ h))
  ]
]

pub is_held-set_nx_new :
    (now room file seconds : ℕ) (locks : List Lock)
    → 0 < seconds
    → (set_nx now room file seconds locks).0 ≡ true
    → (is_held now room file locks ≡ false)
      × (is_held now room file (set_nx now room file seconds locks).1 ≡ true)
unfolding set_nx is_held any
is_held-set_nx_new now room file seconds locks p h =
    elim (Bool-cases (is_held now room file locks)) [
      | inl e ↦ absurd (ground arith)
      | inr e ↦ (e, ground arith)
    ]
