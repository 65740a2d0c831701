-- ===== src/Mongo/Snapshots/RoundTrip.antt =====
-- SaveSnapshot, GetSnapshot and GetLatestSnapshot of backend/internal/mongo/snapshots.go.
use pairly.Prelude.{
  nat_eq, string_eq, ℕ, ◌≤◌, ◌≡◌, refl, String, Bool, false, ◌&&◌, none, some, List, [], ◌∷◌, arith,
  ◌==◌, ==_iff, ==_refl, ltb, find, any, Bool-cases, Option-cases, inl, inr,
}
use pairly.Mongo.Snapshots.{
  FileSnapshot, is_snapshot_of, save_snapshot, get_snapshot, get_latest_snapshot,
}

-- After a save, the snapshot of the file and version is there with the text that was saved.
pub get_snapshot-save_snapshot :
    (now file room version : ℕ) (text : String) (ss : List FileSnapshot)
    → (s : FileSnapshot) × (get_snapshot file version (save_snapshot now file room version text ss)
        ≡ some s)
      × (s.text ≡ text)
      × (s.room_id ≡ room)
unfolding get_snapshot save_snapshot find
get_snapshot-save_snapshot now file room version text [] = (
  record { file_id = file; room_id = room; version = version; text = text; saved_at = now },
  ground (arith, ==_refl file, ==_refl version),
  refl,
  refl,
)
get_snapshot-save_snapshot now file room version text (s ∷ ss) =
    let (s', found, t, r) = get_snapshot-save_snapshot now file room version text ss in
    elim (Bool-cases (is_snapshot_of file version s)) [
      | inl e ↦ (record s { room_id = room; text = text; saved_at = now }, ground arith, refl, refl)
      | inr e ↦ (s', ground arith, t, r)
    ]

-- Is the snapshot of the file and of a version above the bound?
abbrev pub is_later : ℕ → ℕ → FileSnapshot → Bool
is_later file bound s = s.file_id == file && ltb bound s.version

latest_none :
    (file bound : ℕ) (ss : List FileSnapshot)
    → get_latest_snapshot file ss ≡ none
    → any (is_later file bound) ss ≡ false
unfolding get_latest_snapshot any
latest_none file bound [] h = refl
latest_none file bound (s ∷ ss) h = elim (Option-cases (get_latest_snapshot file ss)) [
  | inl q ↦ ground (arith, latest_none file bound ss q)
  | inr (t, q) ↦ ground (arith, latest_none file bound ss)
]

later_mono :
    (file m n : ℕ) (ss : List FileSnapshot)
    → m ≤ n
    → any (is_later file m) ss ≡ false
    → any (is_later file n) ss ≡ false
unfolding any
later_mono file m n [] l h = refl
later_mono file m n (s ∷ ss) l h = ground (arith, later_mono file m n ss l)

-- The latest snapshot of a file is the file's, and no snapshot of the file has a higher version.
pub get_latest_snapshot_highest :
    (file : ℕ) (ss : List FileSnapshot) (t : FileSnapshot)
    → get_latest_snapshot file ss ≡ some t
    → (t.file_id ≡ file) × (any (is_later file t.version) ss ≡ false)
unfolding get_latest_snapshot any
get_latest_snapshot_highest file [] t h = absurd (cc)
get_latest_snapshot_highest file (s ∷ ss) t h = elim (Option-cases (get_latest_snapshot file ss)) [
  | inl q ↦ (ground (arith, ==_iff s.file_id file), ground (arith, latest_none file t.version ss q))
  | inr (u, q) ↦
      let (id, rest) = get_latest_snapshot_highest file ss u q in
      (
        ground (arith, ==_iff s.file_id file),
        ground (arith, later_mono file u.version t.version ss),
      )
]
