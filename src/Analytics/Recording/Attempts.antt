-- ===== src/Analytics/Recording/Attempts.antt =====
-- Which redirects are recorded as click events (src/analytics/analytics_service.cpp,
-- click_event_builder.cpp, client_id_hasher.cpp).
use url_shortener.Prelude.{
  ℕ, ◌≤◌, ◌≡◌, refl, sym, ap, ◌∙◌, ◌⊎◌, inl, inr, Bool, true, false, ◌&&◌, ◌||◌, not, some, arith,
  ◌==◌, Bool-cases, Option-cases, is_some, length, is_empty, Bytes, leb, if◌then◌else◌, [], ◌∷◌,
  ◌++◌,
}
use url_shortener.Analytics.Events.{ClickEvent, is_recorded_status, validate}
use url_shortener.Analytics.Sanitizer.{
  SanitizationLimits, sanitize_referrer, sanitize_user_agent, sanitize_domain,
}
use url_shortener.Analytics.Sanitizer.Laws.{sanitize_common_lem}
use url_shortener.Analytics.Queue.{try_enqueue}
use url_shortener.Analytics.Recording.{
  AnalyticsConfig, validate_config, ClientIdHashConfig, RedirectEventContext, Recorder, hash, draft,
  build, hash_config_of, record_event, record_redirect_attempt, on_dropped, on_enqueued,
  set_queue_depth, observe_enqueue_latency_us,
}

-- What is required of a redirect: an identifier in production, and an event with all its parts.
abbrev pub is_recordable : AnalyticsConfig → Bytes → RedirectEventContext → Bool
is_recordable config event_id context =
    (not (is_empty context.client_network_identifier) || not config.production_mode)
    && not (is_empty event_id)
    && not (context.occurred_at == 0)
    && not (is_empty context.slug)
    && not (is_empty (sanitize_domain context.domain config.sanitization))
    && is_recorded_status context.final_status_code

module _ (hmac : Bytes → Bytes → Bytes) where
  is_some-hash :
      (identifier : Bytes) (config : ClientIdHashConfig)
      → is_some (hash hmac identifier config) ≡ (
          not (is_empty config.salt)
          && (not (is_empty identifier) || config.allow_missing_identifier))
  unfolding hash
  is_some-hash identifier config = ground arith

  validate-draft :
      (event_id : Bytes) (context : RedirectEventContext) (limits : SanitizationLimits) (h : Bytes)
      → validate (draft hmac event_id context limits h) ≡ (
          not (is_empty event_id)
          && not (context.occurred_at == 0)
          && not (is_empty context.slug)
          && not (is_empty (sanitize_domain context.domain limits))
          && is_recorded_status context.final_status_code)
  unfolding validate draft
  validate-draft event_id context limits h = ground arith

  is_some-build :
      (config : AnalyticsConfig) (event_id : Bytes) (context : RedirectEventContext)
      → validate_config config ≡ true
      → config.enabled ≡ true
      → is_some (build hmac event_id context config.sanitization (hash_config_of hmac config))
        ≡ is_recordable config event_id context
  unfolding build validate_config
  is_some-build config event_id context h k =
      elim (Option-cases
        (hash hmac context.client_network_identifier (hash_config_of hmac config))) [
          | inl e ↦ ground (
            arith,
            h,
            k,
            e,
            is_some-hash context.client_network_identifier (hash_config_of hmac config),
          )
          | inr (x, e) ↦ ground (
            arith,
            h,
            k,
            e,
            is_some-hash context.client_network_identifier (hash_config_of hmac config),
            validate-draft event_id context config.sanitization x,
          )
        ]

  build-eq_some :
      (event_id : Bytes) (context : RedirectEventContext) (limits : SanitizationLimits)
      (hash_config : ClientIdHashConfig) (e : ClickEvent)
      → build hmac event_id context limits hash_config ≡ some e
      → (h : Bytes) × (e ≡ draft hmac event_id context limits h) × (validate e ≡ true)
  unfolding build
  build-eq_some event_id context limits hash_config e h =
      elim (Option-cases (hash hmac context.client_network_identifier hash_config)) [
        | inl n ↦ absurd (ground (arith, n, h))
        | inr (x, n) ↦ (x, ground (arith, n, h), ground (arith, n, h))
      ]

  -- What a recorded event says of its redirect, its texts within the limits.
  pub record IsEventOf (limits : SanitizationLimits) (context : RedirectEventContext)
      (e : ClickEvent) : Type 0 where
    pub valid : validate e ≡ true
    pub slug : e.slug ≡ context.slug
    pub link_id : e.link_id ≡ context.link_id
    pub status_code : e.status_code ≡ context.final_status_code
    pub occurred_at : e.occurred_at ≡ context.occurred_at
    pub domain_fits : length e.domain ≤ limits.max_domain_bytes
    pub referrer_fits : length e.referrer ≤ limits.max_referrer_bytes
    pub user_agent_fits : length e.user_agent ≤ limits.max_user_agent_bytes

  draft-IsEventOf :
      (event_id : Bytes) (context : RedirectEventContext) (limits : SanitizationLimits) (h : Bytes)
      → validate (draft hmac event_id context limits h) ≡ true
      → IsEventOf limits context (draft hmac event_id context limits h)
  unfolding draft sanitize_domain sanitize_referrer sanitize_user_agent
  draft-IsEventOf event_id context limits h v = record {
    valid = v;
    slug = refl;
    link_id = refl;
    status_code = refl;
    occurred_at = refl;
    domain_fits = (sanitize_common_lem context.domain limits.max_domain_bytes).0;
    referrer_fits = (sanitize_common_lem context.referrer limits.max_referrer_bytes).0;
    user_agent_fits = (sanitize_common_lem context.user_agent limits.max_user_agent_bytes).0;
  }

  -- What is left of an event behind an attempt: it stands at the end of the queue, or was dropped
  -- because the queue was full; and the metrics are told which, how many events are queued, and the
  -- time that it took.
  pub record IsOffered (us : ℕ) (e : ClickEvent) (before after : Recorder) : Type 0 where
    pub queued : after.queue.queue ≡ (
        if leb before.queue.capacity (length before.queue.queue)
        then before.queue.queue
        else before.queue.queue ++ e ∷ [])
    pub told :
        after.metrics
        ≡ before.metrics
          ++ (if leb before.queue.capacity (length before.queue.queue)
              then on_dropped
              else on_enqueued)
            ∷ set_queue_depth (length after.queue.queue)
            ∷ observe_enqueue_latency_us us
            ∷ []
    pub same_capacity : after.queue.capacity ≡ before.queue.capacity

  record_event-IsOffered :
      (us : ℕ) (e : ClickEvent) (recorder : Recorder)
      → IsOffered us e recorder (record_event hmac us e recorder)
  unfolding record_event try_enqueue
  record_event-IsOffered us e recorder =
      elim (Bool-cases (leb recorder.queue.capacity (length recorder.queue.queue))) [
        | inl full ↦ record {
          queued = rw full refl;
          told = rw full refl;
          same_capacity = rw full refl;
        }
        | inr room ↦ record {
          queued = rw room refl;
          told = rw room refl;
          same_capacity = rw room refl;
        }
      ]

  attempt_cases :
      (config : AnalyticsConfig) (event_id : Bytes) (us : ℕ) (context : RedirectEventContext)
      (recorder : Recorder)
      → ((config.enabled
              && is_some
                  (build hmac event_id context config.sanitization (hash_config_of hmac config)))
            ≡ false
          × (record_redirect_attempt hmac config event_id us context recorder ≡ recorder))
        ⊎ ((e : ClickEvent) × (config.enabled ≡ true)
            × (build hmac event_id context config.sanitization (hash_config_of hmac config)
                ≡ some e)
            × (record_redirect_attempt hmac config event_id us context recorder
                ≡ record_event hmac us e recorder))
  unfolding record_redirect_attempt
  attempt_cases config event_id us context recorder =
      elim (Option-cases
        (build hmac event_id context config.sanitization (hash_config_of hmac config))) [
          | inl n ↦ inl (ground (arith, n), ground (arith, n))
          | inr (e, n) ↦ elim (Bool-cases config.enabled) [
            | inr d ↦ inl (ground (arith, d), ground (arith, d))
            | inl d ↦ inr (e, d, n, rw (d, n, record_redirect_attempt))
          ]
        ]

  -- With a valid configuration: an attempt changes nothing if analytics are disabled or the redirect
  -- is not recordable; else exactly one event, a valid one that has the slug, link, status and
  -- time of the redirect and texts within the limits, is put at the end of the queue, or dropped if
  -- that is full, and the metrics are told which, with the number of queued events and the latency.
  pub record_redirect_attempt_lem :
      (config : AnalyticsConfig) (event_id : Bytes) (us : ℕ) (context : RedirectEventContext)
      (recorder : Recorder)
      → validate_config config ≡ true
      → (((config.enabled && is_recordable config event_id context) ≡ false)
          × (record_redirect_attempt hmac config event_id us context recorder ≡ recorder))
        ⊎ (((config.enabled && is_recordable config event_id context) ≡ true)
            × ((e : ClickEvent) × IsEventOf config.sanitization context e
                × IsOffered us e recorder
                    (record_redirect_attempt hmac config event_id us context recorder)))
  record_redirect_attempt_lem config event_id us context recorder v =
      elim (attempt_cases config event_id us context recorder) [
        | inl (n, p) ↦ inl (ground (arith, n, is_some-build config event_id context v), p)
        | inr (e, d, n, p) ↦
            let (h, q, w) =
              build-eq_some event_id context config.sanitization (hash_config_of hmac config) e n in
            inr (
              ground (arith, d, n, is_some-build config event_id context v),
              (
                e,
                rw q (
                    draft-IsEventOf event_id context config.sanitization h
                      (ap validate (sym q) ∙ w)),
                rw p (record_event-IsOffered us e recorder),
              ),
            )
      ]
