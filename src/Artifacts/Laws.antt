-- ===== src/Artifacts/Laws.antt =====
-- Who is served what is stored under the keys of internal/storage.
use auditloop.Base.{
  ◌≡◌, refl, ap, ◌∙◌, inl, inr, ◌⊎◌, Bool, true, false, ◌&&◌, ◌||◌, Option, some, List, [], ◌∷◌,
  ◌++◌, arith, if◌then◌else◌, Bool-cases, Option-cases, is_some, Str, codes, all, All, eqb, eqb_iff,
  is_empty, contains, and-eq-true,
}
use mathlib.Core.List.{Memᴰ}
use auditloop.Db.Table.{first}
use auditloop.Db.Table.Laws.{first-some}
use auditloop.Db.Targets.{Target, get_target, is_owned}
use auditloop.Db.Runs.{Run, get_run, has_id}
use auditloop.Storage.{
  ◌slash◌, slug, screenshot_key, axe_key, network_key, a11y_digest_key, report_key, favicon_key,
  diff_key, login_test_key, walkthrough_step_key,
}
use auditloop.Storage.Laws.{IsToken, is_token_rune, slug-IsToken}
use auditloop.Artifacts.{
  split, second_part, owns_parts, owns_artifact, is_target_scope, handle_artifact, stream_artifact,
  served, not_found, artifact_run_id, Response,
}
use auditloop.Artifacts.Segments.{
  IsUuid, split_scoped, uuid_not_scope, contains_segment, contains_token, contains_favicon,
}

-- Every key under a run that the code builds.
abbrev pub run_keys : Str → Str → Str → Str → Str → List Str
run_keys target run page viewport ext =
    screenshot_key target run page viewport
    ∷ diff_key target run page viewport
    ∷ axe_key target run page
    ∷ network_key target run page
    ∷ a11y_digest_key target run page
    ∷ report_key target run
    ∷ favicon_key target run ext
    ∷ []

module _ (stored : Str → Option Str) (targets : List Target) (runs : List Run) (user : Str) where
  -- What the owner of a row is answered, and what anyone else is.
  abbrev pub answered : Bool → Str → Response
  answered owned key = if owned then stream_artifact stored key else not_found

  clean_answer :
      (key : Str)
      → is_empty key ≡ false
      → contains key (codes "..") ≡ false
      → handle_artifact stored targets runs user key
        ≡ answered (owns_artifact user targets runs key) key
  unfolding handle_artifact
  clean_answer key n h = rw (n, h) refl

  filled_slash : (s t : Str) → is_empty s ≡ false → is_empty (s slash t) ≡ false
  filled_slash [] t n = cc
  filled_slash (c ∷ s) t n = refl

  scoped_clean :
      (s t rest : Str)
      → IsToken s
      → IsToken t
      → contains rest (codes "..") ≡ false
      → contains (s slash t slash rest) (codes "..") ≡ false
  scoped_clean s t rest (n, h) (m, k) c =
      contains_segment s (t slash rest) h ∙ contains_segment t rest k ∙ c

  run_answer :
      (target run rest : Str)
      → IsToken target
      → IsUuid run
      → contains rest (codes "..") ≡ false
      → handle_artifact stored targets runs user (target slash run slash rest)
        ≡ answered (is_some (get_run user run runs)) (target slash run slash rest)
  run_answer target run rest h (k, n) c =
      let key = target slash run slash rest in
      let owned : owns_artifact user targets runs key ≡ is_some (get_run user run runs) =
        unfold owns_artifact owns_parts get_run in
        ap (owns_parts user targets runs) (split_scoped target run rest h k)
        ∙ rw (h.0, k.0, uuid_not_scope run (k, n)) refl in
      clean_answer key (filled_slash target (run slash rest) h.0)
        (scoped_clean target run rest h k c)
      ∙ ap (λ b. answered b key) owned

  target_answer :
      (id scope rest : Str)
      → IsToken id
      → IsToken scope
      → is_target_scope scope ≡ true
      → contains rest (codes "..") ≡ false
      → handle_artifact stored targets runs user (id slash scope slash rest)
        ≡ answered (is_some (get_target user id targets)) (id slash scope slash rest)
  target_answer id scope rest h k t c =
      let key = id slash scope slash rest in
      let owned : owns_artifact user targets runs key ≡ is_some (get_target user id targets) =
        unfold owns_artifact owns_parts get_target in
        ap (owns_parts user targets runs) (split_scoped id scope rest h k)
        ∙ rw (h.0, k.0, t) refl in
      clean_answer key (filled_slash id (scope slash rest) h.0) (scoped_clean id scope rest h k c)
      ∙ ap (λ b. answered b key) owned

  -- Under every key of a run that the code builds from a slug and the run's id, the run's owner is
  -- answered with what is stored there, and anyone else as if nothing were.
  pub run_keys-answer :
      (target run page viewport ext : Str)
      → IsToken target
      → IsUuid run
      → IsToken page
      → all is_token_rune ext ≡ true
      → All
          (λ key.
            handle_artifact stored targets runs user key
            ≡ answered (is_some (get_run user run runs)) key)
          (run_keys target run page viewport ext)
  unfolding screenshot_key diff_key axe_key network_key a11y_digest_key report_key favicon_key
      contains
  run_keys-answer target run page viewport ext h k p x =
      let v = (slug-IsToken viewport).0.1 in
      let here = run_answer target run in
      let shot = contains_segment page (slug viewport ++ codes ".png") p.1 in
      let diff = contains_segment page (slug viewport ++ codes ".diff.png") p.1 in
      let name : Str = if is_empty ext then codes "png" else ext in
      let name_all : all is_token_rune name ≡ true = elim (Bool-cases (is_empty ext)) [
        | inl e ↦ rw e refl
        | inr e ↦ rw e x
      ] in
      (
        here (page slash (slug viewport ++ codes ".png")) h k
            (shot ∙ contains_token (slug viewport) (codes ".png") v),
        (
          here (page slash (slug viewport ++ codes ".diff.png")) h k
              (diff ∙ contains_token (slug viewport) (codes ".diff.png") v),
          (
            here (page slash codes "axe.json") h k (contains_segment page (codes "axe.json") p.1),
            (
              here (page slash codes "network.json") h k
                  (contains_segment page (codes "network.json") p.1),
              (
                here (page slash codes "a11y.json") h k
                    (contains_segment page (codes "a11y.json") p.1),
                (
                  here (codes "report.json") h k refl,
                  (here (codes "favicon." ++ name) h k (contains_favicon name name_all), tt),
                ),
              ),
            ),
          ),
        ),
      )

  -- The same for the keys of a target.
  pub target_keys-answer :
      (id other step : Str)
      → IsToken id
      → IsToken other
      → all is_token_rune step ≡ true
      → All
          (λ key.
            handle_artifact stored targets runs user key
            ≡ answered (is_some (get_target user id targets)) key)
          (login_test_key id other ∷ walkthrough_step_key id other step ∷ [])
  unfolding login_test_key walkthrough_step_key eqb contains
  target_keys-answer id other step h k s = (
    target_answer id (codes "login-tests") (other ++ codes ".png") h (refl, refl) refl
        (contains_token other (codes ".png") k.1),
    (
      target_answer id (codes "walkthroughs") (other slash (step ++ codes ".png")) h (refl, refl)
          refl
          (contains_segment other (step ++ codes ".png") k.1
            ∙ contains_token step (codes ".png") s),
      tt,
    ),
  )

-- The row that stands behind an answer: a target for its own segments, else a run.
abbrev pub IsOwner : Str → List Target → List Run → List Str → Type 0
IsOwner user targets runs [] = ⊥
IsOwner user targets runs (p ∷ []) = ⊥
IsOwner user targets runs (p ∷ q ∷ more) =
    ((is_target_scope q ≡ true) × ((t : Target) × Memᴰ t targets × (t.id ≡ p) × (t.user_id ≡ user)))
    ⊎ ((is_target_scope q ≡ false) × ((r : Run) × Memᴰ r runs × (r.id ≡ q) × (r.user_id ≡ user)))

module _ (user : Str) (targets : List Target) (runs : List Run) where
  target_row :
      (id : Str)
      → is_some (get_target user id targets) ≡ true
      → (t : Target) × Memᴰ t targets × (t.id ≡ id) × (t.user_id ≡ user)
  unfolding get_target
  target_row id h = elim (Option-cases (first (is_owned user id) targets)) [
    | inl n ↦ cc (rw n at h)
    | inr (t, e) ↦
        let (m, f) = first-some (is_owned user id) targets t e in
        let (a, b) = and-eq-true (eqb t.id id) (eqb t.user_id user) f in
        (t, m, (eqb_iff t.id id).0 a, (eqb_iff t.user_id user).0 b)
  ]

  run_row :
      (id : Str)
      → is_some (get_run user id runs) ≡ true
      → (r : Run) × Memᴰ r runs × (r.id ≡ id) × (r.user_id ≡ user)
  unfolding get_run
  run_row id h =
      let fits : Run → Bool = λ r. has_id id r && eqb r.user_id user in
      elim (Option-cases (first fits runs)) [
        | inl n ↦ cc (rw n at h)
        | inr (r, e) ↦
            let (m, f) = first-some fits runs r e in
            let (a, b) = and-eq-true (eqb r.id id) (eqb r.user_id user) f in
            (r, m, (eqb_iff r.id id).0 a, (eqb_iff r.user_id user).0 b)
      ]

  owns_parts-IsOwner :
      (parts : List Str)
      → owns_parts user targets runs parts ≡ true
      → IsOwner user targets runs parts
  unfolding owns_parts
  owns_parts-IsOwner [] h = ground (arith, h)
  owns_parts-IsOwner (p ∷ []) h = ground (arith, h)
  owns_parts-IsOwner (p ∷ q ∷ more) h = elim (Bool-cases (is_empty p || is_empty q)) [
    | inl e ↦ let h' = rw e at h in ground (arith, h')
    | inr e ↦ elim (Bool-cases (is_target_scope q)) [
      | inl s ↦ inl (s, target_row p (rw (e, s) at h))
      | inr s ↦ inr (s, run_row q (rw (e, s) at h))
    ]
  ]

  -- Whatever the key, an answer with a body is the stored one, and the reader owns what it is of.
  pub handle_artifact-IsOwner :
      (stored : Str → Option Str) (key content_type body : Str)
      → handle_artifact stored targets runs user key ≡ served content_type body
      → IsOwner user targets runs (split b'/' key) × (stored key ≡ some body)
  unfolding handle_artifact stream_artifact
  handle_artifact-IsOwner stored key content_type body h =
      elim (Bool-cases (is_empty key || contains key (codes ".."))) [
        | inl e ↦ absurd (cc (rw e at h))
        | inr e ↦ elim (Bool-cases (owns_artifact user targets runs key)) [
          | inr o ↦ absurd (cc (rw (e, o) at h))
          | inl o ↦ elim (Option-cases (stored key)) [
            | inl n ↦ absurd (cc (rw (e, o, n) at h))
            | inr (b, s) ↦
                let h' = rw (e, o, s) at h in
                let same : b ≡ body = cc h' in
                (owns_parts-IsOwner (split b'/' key) (unfold owns_artifact in o), s ∙ ap some same)
          ]
        ]
      ]

pub segment_run_id :
    (target run rest : Str)
    → IsToken target
    → IsToken run
    → artifact_run_id (target slash run slash rest) ≡ some run
unfolding artifact_run_id
segment_run_id target run rest h k = ap second_part (split_scoped target run rest h k) ∙ rw k.0 refl

-- From every key that the code builds for a run, the id of that run is read back.
pub run_keys-run_id :
    (target run page viewport ext : Str)
    → IsToken target
    → IsToken run
    → All (λ key. artifact_run_id key ≡ some run) (run_keys target run page viewport ext)
unfolding screenshot_key diff_key axe_key network_key a11y_digest_key report_key favicon_key
run_keys-run_id target run page viewport ext h k =
    let here = λ (rest : Str). segment_run_id target run rest h k in
    let v = slug viewport in
    (
      here (page slash (v ++ codes ".png")),
      (
        here (page slash (v ++ codes ".diff.png")),
        (
          here (page slash codes "axe.json"),
          (
            here (page slash codes "network.json"),
            (
              here (page slash codes "a11y.json"),
              (
                here (codes "report.json"),
                (here (codes "favicon." ++ (if is_empty ext then codes "png" else ext)), tt),
              ),
            ),
          ),
        ),
      ),
    )
