-- ===== src/Walkthrough/Generator/Laws.antt =====
-- What a pass asks of the driver.
use auditloop.Base.{
  ◌≡◌, ◌≢◌, ◌↔◌, refl, sym, inl, inr, ◌⊎◌, Bool, true, false, not, Option, none, some, List, [],
  ◌∷◌, arith, Option-cases, Bool-cases, if◌then◌else◌, Str, codes, eqb, eqb_iff, is_empty,
  trim_space, to_lower,
}
use mathlib.Core.Path.{subst}
use mathlib.Core.List.{Memᴰ}
use auditloop.Base.Int.{is_pos}
use auditloop.Base.Text.Laws.{ne_of_filled, nil_of_empty}
use auditloop.Action.{SuccessAssertion, is_zero}
use auditloop.Db.Table.{first}
use auditloop.Db.Table.Laws.{first-some}
use auditloop.Db.Targets.{Target, get_target_by_id}
use auditloop.Db.Walkthroughs.{Walkthrough}
use auditloop.Recipe.Login.{Login, build_login}
use auditloop.Walkthrough.Generator.{
  AuditConfig, DriveRequest, Services, success_of, goal_of, allowed_hosts, drive_request, requested,
  configured, permitted, setup, default_max_actions,
}

module _ (srv : Services) (wk : Walkthrough) where
  -- A host that a drive may reach: a verified domain, or the host of the base URL when there is none.
  abbrev pub IsHostOf : Target → Str → Type 0
  IsHostOf tgt h =
      Memᴰ h tgt.verified_domains
      ⊎ ((tgt.verified_domains ≡ []) × (h ≡ to_lower (srv.host_of tgt.base_url)) × (h ≢ []))

  -- The walkthrough's goal, or that of the audit configuration when it is blank.
  abbrev pub IsGoal : AuditConfig → Str → Type 0
  IsGoal cfg goal =
      ((trim_space wk.goal ≢ []) × (goal ≡ trim_space wk.goal))
      ⊎ ((trim_space wk.goal ≡ []) × (goal ≡ trim_space cfg.primary_job))

  abbrev pub IsConditionOf : AuditConfig → SuccessAssertion → Type 0
  IsConditionOf cfg a =
      (a.selector ≡ trim_space cfg.success_selector)
      × (a.url_contains ≡ trim_space cfg.success_url_contains)
      × (a.timeout_ms ≡ cfg.success_timeout_ms)

  -- A drive that the target permits: driving is enabled; it starts at the target's URL, reaches the
  -- target's hosts alone, with the target's login; goal and condition are those of the walkthrough
  -- and the audit configuration; there is a condition to check and at least one action to take; and
  -- requests that write are let through only if neither the walkthrough nor the target as it is now
  -- asks for a dry run.
  pub record IsPermitted (tgt : Target) (request : DriveRequest) : Type 0 where
    pub enabled : tgt.driving_enabled ≡ true
    pub start : request.base_url ≡ tgt.base_url
    pub hosts : (h : Str) → Memᴰ h request.allowed_hosts ↔ IsHostOf tgt h
    pub session : build_login srv.vault tgt ≡ inr request.login
    pub config : AuditConfig
    pub configured_by : srv.audit_config tgt.user_id tgt.id ≡ some config
    pub aim : IsGoal config request.goal
    pub condition : IsConditionOf config request.success
    pub checkable : is_zero request.success ≡ false
    pub acts : is_pos request.max_actions ≡ true
    pub writes : (request.dry_run ≡ false) ↔ ((wk.dry_run ≡ false) × (tgt.allow_real_submit ≡ true))

  -- The target is the walkthrough's.
  abbrev pub IsTargetOf : Target → Type 0
  IsTargetOf tgt = Memᴰ tgt srv.targets × (tgt.id ≡ wk.target_id)

  abbrev IsAsked : Target → Str ⊎ (Target × DriveRequest) → Type 0
  IsAsked tgt (inl message) = Unit
  IsAsked tgt (inr (asked, request)) = (asked ≡ tgt) × IsPermitted tgt request

  positive_actions :
      is_pos (if is_pos srv.max_actions then srv.max_actions else default_max_actions) ≡ true
  positive_actions = elim (Bool-cases (is_pos srv.max_actions)) [
    | inl e ↦ rw e e
    | inr e ↦ rw e refl
  ]

  host_or_none :
      (host h : Str) → Memᴰ h (if is_empty host then [] else host ∷ []) ↔ ((h ≡ host) × (h ≢ []))
  host_or_none [] h = ((λ m. elim m [ ]), λ (e, n). absurd (n e))
  host_or_none (c ∷ host) h = (
    (λ m. elim m [ Memᴰ.head e ↦ (e, λ q. cc (e, q)) | Memᴰ.tail m' ↦ elim m' [ ] ]),
    λ (e, n). Memᴰ.head e,
  )

  allowed_hosts-IsHostOf :
      (tgt : Target) (domains : List Str) (h : Str)
      → tgt.verified_domains ≡ domains
      → Memᴰ h (allowed_hosts srv tgt) ↔ IsHostOf tgt h
  unfolding allowed_hosts
  allowed_hosts-IsHostOf tgt [] h e = rw e (
      let (f, g) = host_or_none (to_lower (srv.host_of tgt.base_url)) h in
      (
        (λ m. let (a, b) = f m in inr (refl, a, b)),
        λ k. elim k [ inl m ↦ elim m [ ] | inr (q, a, b) ↦ g (a, b) ],
      ))
  allowed_hosts-IsHostOf tgt (d ∷ ds) h e =
      rw e (inl, λ k. elim k [ inl m ↦ m | inr (q, a, b) ↦ cc q ])

  goal_of-IsGoal : (cfg : AuditConfig) → IsGoal cfg (goal_of srv wk cfg)
  goal_of-IsGoal cfg = elim (Bool-cases (is_empty (trim_space wk.goal))) [
    | inl e ↦ rw e (inr (nil_of_empty (trim_space wk.goal) e, refl))
    | inr e ↦ rw e (inl (ne_of_filled (trim_space wk.goal) e, refl))
  ]

  requested-IsAsked :
      (tgt : Target) (cfg : AuditConfig) (login : Str ⊎ Option Login)
      → tgt.driving_enabled ≡ true
      → srv.audit_config tgt.user_id tgt.id ≡ some cfg
      → is_zero (success_of srv cfg) ≡ false
      → build_login srv.vault tgt ≡ login
      → IsAsked tgt (requested srv wk tgt cfg login)
  requested-IsAsked tgt cfg (inl message) d c z l = tt
  requested-IsAsked tgt cfg (inr login) d c z l =
      unfold drive_request in
      (
        refl,
        record {
          enabled = d;
          start = refl;
          hosts = λ h. allowed_hosts-IsHostOf tgt tgt.verified_domains h refl;
          session = l;
          config = cfg;
          configured_by = c;
          aim = goal_of-IsGoal cfg;
          condition = (refl, refl, refl);
          checkable = z;
          acts = positive_actions;
          writes = ground arith;
        },
      )

  configured-IsAsked :
      (tgt : Target) (cfg : Option AuditConfig)
      → tgt.driving_enabled ≡ true
      → srv.audit_config tgt.user_id tgt.id ≡ cfg
      → IsAsked tgt (configured srv wk tgt cfg)
  unfolding configured
  configured-IsAsked tgt none d c = tt
  configured-IsAsked tgt (some cfg) d c = elim (Bool-cases (is_zero (success_of srv cfg))) [
    | inl e ↦ rw e tt
    | inr e ↦ rw e (requested-IsAsked tgt cfg (build_login srv.vault tgt) d c e refl)
  ]

  gate-IsAsked :
      (tgt : Target) (enabled : Bool) (message : Str) (next : Str ⊎ (Target × DriveRequest))
      → (enabled ≡ true → IsAsked tgt next)
      → IsAsked tgt (if not enabled then inl message else next)
  gate-IsAsked tgt true message next h = h refl
  gate-IsAsked tgt false message next h = tt

  permitted-IsAsked : (tgt : Target) → IsAsked tgt (permitted srv wk (some tgt))
  unfolding permitted
  permitted-IsAsked tgt =
      gate-IsAsked tgt tgt.driving_enabled (codes "driving is not enabled for this target")
        (configured srv wk tgt (srv.audit_config tgt.user_id tgt.id))
        (λ d. configured-IsAsked tgt (srv.audit_config tgt.user_id tgt.id) d refl)

  -- Whatever a pass drives is the target of its walkthrough, as it is stored at that moment:
  -- driving is enabled for it, the drive starts at its base URL, its allowed hosts are exactly the
  -- verified domains (or, when there are none, the host of the base URL), it has the login that
  -- the target's recipe gives, its goal and its condition are those of the walkthrough and of the
  -- target's audit configuration, the condition is not empty, at least one action may be taken,
  -- and it is not a dry run just if neither the walkthrough nor the target asks for one.
  pub setup-IsPermitted :
      (tgt : Target) (request : DriveRequest)
      → setup srv wk ≡ inr (tgt, request)
      → IsTargetOf tgt × IsPermitted tgt request
  unfolding setup get_target_by_id
  setup-IsPermitted tgt request h =
      let fits : Target → Bool = λ t. eqb t.id wk.target_id in
      elim (Option-cases (first fits srv.targets)) [
        | inl n ↦ absurd (let h' = rw n at h in ground (arith, h'))
        | inr (t, e) ↦
            let (m, q) = first-some fits srv.targets t e in
            let h' : permitted srv wk (some t) ≡ inr (tgt, request) = rw e at h in
            let (same, ok) = subst (IsAsked t) h' (permitted-IsAsked t) in
            let it : IsTargetOf t = (m, (eqb_iff t.id wk.target_id).0 q) in
            let both : IsTargetOf t × IsPermitted t request = (it, ok) in
            subst (λ x. IsTargetOf x × IsPermitted x request) (sym same) both
      ]
