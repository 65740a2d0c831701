-- ===== src/Rooms/StateHandler/Saves.antt =====
-- What SaveState has done when it answers "saved".
use pairly.Prelude.{
  ◌++◌, [], ◌∷◌, nat_eq, string_eq, ℕ, ◌≡◌, refl, sym, ap, subst, ◌∙◌, String, Bool, Option, none,
  some, arith, ◌==◌, if◌then◌else◌, ◌⊎◌, inl, inr, Bool-cases,
}
use pairly.Postgres.Schema.{role_eq, viewer}
use pairly.Postgres.Files.{get_file_by_id}
use pairly.Mongo.Documents.{Bytes, save_document}
use pairly.Mongo.Snapshots.{FileSnapshot, get_latest_snapshot}
use pairly.World.Env.{Env}
use pairly.World.Message.{Response}
use pairly.World.State.{World, publish_edit, snapshot, query, mongo, fault}
use pairly.World.Action.{ok, Action, attempt, ignoring, stop_if, modify, pure, ◌>>=◌}
use pairly.World.Action.Inversion.{>>=-ok}
use pairly.Rooms.Shared.{fail, said, member_role}
use pairly.Rooms.Access.Refused.{SameBut, member_role_same}
use pairly.Rooms.StateHandler.{
  unchanged, yjs_blob_to_text, latest_of, store_state, start_tasks, save_changed, read_state,
  save_state,
}

file_query_same :
    (file : ℕ) (b : Response) (w : World) → SameBut w (attempt b (query (get_file_by_id file)) w).1
unfolding attempt query get_file_by_id
file_query_same file b w = ground arith

latest_same : (file : ℕ) (w : World) → SameBut w (ignoring none (mongo (latest_of file)) w).1
unfolding ignoring mongo latest_of
latest_same file w = ground arith

role_same : (s : String) (room user : ℕ) (w : World) → SameBut w (member_role s room user w).1
role_same s room user w = rw (member_role_same s room user w) refl

read_same : (body : Option Bytes) (w : World) → (read_state body w).1 ≡ w
unfolding read_state
read_same none w = refl
read_same (some b) w = refl

read_found :
    (bytes state : Bytes) (w : World) → (read_state (some bytes) w).0 ≡ ok state → state ≡ bytes
unfolding read_state
read_found bytes state w e = ground arith

stop_if_same : (test : Bool) (r : Response) (w : World) → (stop_if test r w).1 ≡ w
unfolding stop_if
stop_if_same test r w = refl

SameBut-trans : (u v w : World) → SameBut u v → SameBut v w → SameBut u w
SameBut-trans u v w h k = k ∙ ap (λ (x : World). record x { calls = w.calls }) h

-- What the last query of the handler read, if anything.
latest_found :
    (file : ℕ) (w : World) (o : Option FileSnapshot)
    → (ignoring none (mongo (latest_of file)) w).0 ≡ ok o
    → (o ≡ none) ⊎ (get_latest_snapshot file w.snapshots ≡ o)
unfolding ignoring mongo latest_of
latest_found file w o e = elim (Bool-cases (fault w)) [
  | inl q ↦ inl (ground arith)
  | inr q ↦ inr (ground arith)
]

-- The world after a save: the document as save_document makes it, and two goroutines that have not
-- run, for the edit event and for the snapshot of the new version.
abbrev pub after_save : ℕ → ℕ → ℕ → Bytes → String → World → World
after_save room file user state text w =
    let (version, docs) = save_document w.db.now file state w.documents in
    record w {
      documents = docs;
      tasks =
          w.tasks
          ++ publish_edit (record {
            room_id = room;
            file_id = file;
            user_id = user;
            yjs_blob = state;
            version = version;
            saved_at = w.db.now;
          })
            ∷ snapshot file room version text
            ∷ [];
    }

save_changed-ok :
    (room file user : ℕ) (state : Bytes) (text : String) (w : World) (r : Response)
    → (save_changed room file user state text w).0 ≡ ok r
    → SameBut (after_save room file user state text w) (save_changed room file user state text w).1
unfolding save_changed store_state start_tasks modify pure ◌>>=◌ attempt mongo
save_changed-ok room file user state text w r e = ground arith

abbrev pub moved_on : World → World → World
moved_on w v = record w { calls = v.calls }

-- The last step of SaveState, and what was read before it.
abbrev decide : ℕ → ℕ → ℕ → Bytes → String → Option FileSnapshot → Action Response
decide room file user state text latest =
    if unchanged latest text then pure (said "saved") else save_changed room file user state text

decide-ok :
    (room file user : ℕ) (state : Bytes) (text : String) (latest : Option FileSnapshot) (w : World)
    (r : Response)
    → (decide room file user state text latest w).0 ≡ ok r
    → ((s : FileSnapshot) × (latest ≡ some s)
        × (s.text ≡ text)
        × SameBut w (decide room file user state text latest w).1)
      ⊎ SameBut
          (after_save room file user state text w)
          (decide room file user state text latest w).1
unfolding pure
decide-ok room file user state text none w r e =
    inr (save_changed-ok room file user state text w r e)
decide-ok room file user state text (some s) w r e = elim (Bool-cases (s.text == text)) [
  | inl q ↦ inl (s, refl, (string_eq.same_iff s.text text).0 q, ground arith)
  | inr q ↦ inr (ground (arith, save_changed-ok room file user state text w r))
]

save_state_read :
    (env : Env) (room file user : ℕ) (bytes : Bytes) (w : World) (r : Response)
    → (save_state env room file user (some bytes) w).0 ≡ ok r
    → (latest : Option FileSnapshot) × (v : World) × SameBut w v
      × ((latest ≡ none) ⊎ (get_latest_snapshot file v.snapshots ≡ latest))
      × (save_state env room file user (some bytes) w
          ≡ decide room file user bytes (yjs_blob_to_text env bytes) latest v)
unfolding save_state stop_if
save_state_read env room file user bytes w r e =
    let (role, q1, f1, g1) = >>=-ok (member_role "not a member of this room" room user) _ w r e in
    let w1 = (member_role "not a member of this room" room user w).1 in
    let (_, q2, f2, g2) =
      >>=-ok (stop_if (role == viewer) (fail 403 "viewers cannot save")) _ w1 r g1 in
    let (existing, q3, f3, g3) =
      >>=-ok (attempt (fail 404 "file not found") (query (get_file_by_id file))) _ w1 r g2 in
    let w3 = (attempt (fail 404 "file not found") (query (get_file_by_id file)) w1).1 in
    let (_, q4, f4, g4) =
      >>=-ok (stop_if existing.is_folder (fail 400 "folders do not have state")) _ w3 r g3 in
    let (state, q5, f5, g5) = >>=-ok (read_state (some bytes)) _ w3 r g4 in
    let w5 = (read_state (some bytes) w3).1 in
    let (latest, q6, f6, g6) = >>=-ok (ignoring none (mongo (latest_of file))) _ w5 r g5 in
    let w6 = (ignoring none (mongo (latest_of file)) w5).1 in
    (
      latest,
      w6,
      SameBut-trans w w3 w6
          (SameBut-trans w w1 w3 (role_same "not a member of this room" room user w)
            (file_query_same file (fail 404 "file not found") w1))
          (subst (λ (x : World). SameBut x w6) (read_same (some bytes) w3) (latest_same file w5)),
      elim (latest_found file w5 latest q6) [
        | inl none_read ↦ inl none_read
        | inr found ↦
            inr (
              ap (λ (x : World). get_latest_snapshot file x.snapshots) (latest_same file w5)
              ∙ found)
      ],
      f1
          ∙ f2
          ∙ f3
          ∙ f4
          ∙ f5
          ∙ f6
          ∙ ap (λ (x : Bytes). decide room file user x (yjs_blob_to_text env x) latest w6)
              (read_found bytes state w3 q5),
    )

-- SaveState that goes through either finds the latest snapshot of the file with the text of the
-- new state, and then changes nothing, or it stores the state as the file's document and starts
-- the two goroutines with the new version; in both cases nothing else of the world is changed but
-- the number of calls.
pub save_state-ok :
    (env : Env) (room file user : ℕ) (bytes : Bytes) (w : World) (r : Response)
    → (save_state env room file user (some bytes) w).0 ≡ ok r
    → ((s : FileSnapshot) × (get_latest_snapshot file w.snapshots ≡ some s)
        × (s.text ≡ yjs_blob_to_text env bytes)
        × SameBut w (save_state env room file user (some bytes) w).1)
      ⊎ SameBut
          (after_save room file user bytes (yjs_blob_to_text env bytes) w)
          (save_state env room file user (some bytes) w).1
unfolding start_tasks save_document
save_state-ok env room file user bytes w r e =
    let (latest, v, same, read, ends) = save_state_read env room file user bytes w r e in
    let text = yjs_blob_to_text env bytes in
    elim (decide-ok room file user bytes text latest v r (ap (λ p. p.0) (sym ends) ∙ e)) [
      | inl (s, is, t, kept) ↦ inl (
        s,
        elim read [
          | inl unread ↦ absurd (cc)
          | inr found ↦
              sym (ap (λ (x : World). get_latest_snapshot file x.snapshots) same) ∙ found ∙ is
        ],
        t,
        rw ends (SameBut-trans w v _ same kept),
      )
      | inr saved ↦ inr (
          rw ends (
            SameBut-trans (after_save room file user bytes text w)
              (after_save room file user bytes text v) _
              (ap (after_save room file user bytes text) same) saved))
    ]
