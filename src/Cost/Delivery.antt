-- ===== src/Cost/Delivery.antt =====
-- cost/webhook.py: the guard on the URL, and `send_budget_alert` with its one retry. The URL parser, the
-- reader of IP addresses and the HTTP client are parameters; the signed body is the client's matter.
use agentic_governance.Prelude.{
  ℕ, zero, suc, ◌≡◌, ◌⊎◌, refl, String, Bool, true, false, Option, none, some, List, [], ◌∷◌,
  contains, string_eq, ◌==◌, leb, ltb, if◌then◌else◌, ◌&&◌, ◌||◌, not, arith, Bool-cases, inl, inr,
}
use agentic_governance.Errors.{None, Result, Exception, ok, err, other}
use agentic_governance.Exec.{Exec, ◌>>◌}

-- The properties of an address that the guard asks for.
pub record Address : Type 0 where
  pub is_private : Bool
  pub is_loopback : Bool
  pub is_link_local : Bool
  pub is_multicast : Bool
  pub is_reserved : Bool
  pub is_unspecified : Bool

pub record Urls : Type 0 where
  -- urlparse(url).scheme, and (urlparse(url).hostname or "").lower()
  pub scheme : String → String
  pub host : String → String
  pub ip_address : String → Option Address

abbrev pub blocked_metadata_hosts : List String
blocked_metadata_hosts =
    "169.254.169.254" ∷ "metadata.google.internal" ∷ "metadata" ∷ "metadata.azure.com" ∷ []

abbrev pub is_internal : Option Address → Bool
is_internal none = false
is_internal (some ip) =
    ip.is_private || ip.is_loopback || ip.is_link_local || ip.is_multicast || ip.is_reserved
    || ip.is_unspecified

abbrev pub webhook_config_error : Exception
webhook_config_error = other "WebhookConfigError"

clash : {b : Bool} → b ≡ true → b ≡ false → ⊥
clash h g = ground arith

answer_of :
    {W : Type 0} (first second : Bool) (w v : W)
    → let yes_now : Result Bool × W = (ok true, w) in
      let yes_then : Result Bool × W = (ok true, v) in
      let no_then : Result Bool × W = (ok false, v) in
      let answered : Result Bool × W = (ok second, v) in
      (if first then yes_now else if second then yes_then else no_then)
      ≡ (if first then yes_now else answered)
answer_of true second w v = refl
answer_of false true w v = refl
answer_of false false w v = refl

module _ (u : Urls) where
  unfoldable pub host_is_private : (host : String) → Bool
  host_is_private host = is_internal (u.ip_address host)

  unfoldable pub assert_url_safe : (url : String) → Result None
  unfolding host_is_private
  assert_url_safe url =
      if not (contains (u.scheme url) ("http" ∷ "https" ∷ []))
      then err webhook_config_error
      else if u.host url == ""
      then err webhook_config_error
      else if contains (u.host url) blocked_metadata_hosts
      then err webhook_config_error
      else if host_is_private (u.host url)
      then err webhook_config_error
      else ok tt

  -- The delivery, where `post` sends the signed alert and returns the status or raises.
  module _ {W : Type 0} (post : Exec W ℕ) where
    abbrev pub is_2xx : Result ℕ → Bool
    is_2xx (ok status) = leb 200 status && ltb status 300
    is_2xx (err e) = false

    -- The attempts that are left.
    unfoldable pub attempts : (left : ℕ) → Exec W Bool
    attempts zero w = (ok false, w)
    attempts (suc left) w =
        let (r, after) = post w in
        let rest = attempts left after in if is_2xx r then (ok true, after) else rest

    unfoldable pub send_budget_alert : (has_httpx : Bool) → (url : String) → Exec W Bool
    unfolding attempts assert_url_safe
    send_budget_alert has_httpx url =
        (λ w. (assert_url_safe url, w)) >> (if has_httpx then attempts 2 else λ w. (ok false, w))

  -- A URL that the guard lets through.
  abbrev pub IsPublic : (url : String) → Type 0
  IsPublic url =
      (contains (u.scheme url) ("http" ∷ "https" ∷ []) ≡ true)
      × ((u.host url == "") ≡ false)
      × (contains (u.host url) blocked_metadata_hosts ≡ false)
      × (is_internal (u.ip_address (u.host url)) ≡ false)

  assert_url_safe-cases :
      (url : String)
      → ((assert_url_safe url ≡ ok tt) × IsPublic url)
        ⊎ ((assert_url_safe url ≡ err webhook_config_error) × (IsPublic url → ⊥))
  unfolding assert_url_safe
  assert_url_safe-cases url = elim (Bool-cases (contains (u.scheme url) ("http" ∷ "https" ∷ []))) [
    | inr a ↦ inr (rw (a, assert_url_safe) refl, λ (h, _, _, _). clash h a)
    | inl a ↦ elim (Bool-cases (u.host url == "")) [
      | inl b ↦ inr (rw (a, b, assert_url_safe) refl, λ (_, h, _, _). clash b h)
      | inr b ↦ elim (Bool-cases (contains (u.host url) blocked_metadata_hosts)) [
        | inl d ↦ inr (rw (a, b, d, assert_url_safe) refl, λ (_, _, h, _). clash d h)
        | inr d ↦ elim (Bool-cases (is_internal (u.ip_address (u.host url)))) [
          | inl e ↦ inr (rw (a, b, d, e, assert_url_safe) refl, λ (_, _, _, h). clash e h)
          | inr e ↦ inl (rw (a, b, d, e, assert_url_safe) refl, (a, b, d, e))
        ]
      ]
    ]
  ]

  -- An alert goes to public web hosts only, at most twice: for a URL of the web with a host that is no
  -- metadata service and no internal address, and with the client installed, one attempt is made, and
  -- a second one if the first had no 2xx status, and the answer is whether one of them had; for any
  -- other URL the call raises and sends nothing.
  pub send_budget_alert_lem :
      {W : Type 0} (post : Exec W ℕ) (url : String) (w : W)
      → (IsPublic url
          × (send_budget_alert post true url w ≡ (
              if is_2xx post (post w).0
              then (ok true, (post w).1)
              else (ok (is_2xx post (post (post w).1).0), (post (post w).1).1))))
        ⊎ ((IsPublic url → ⊥) × (send_budget_alert post true url w ≡ (err webhook_config_error, w)))
  unfolding send_budget_alert attempts
  send_budget_alert_lem post url w = elim (assert_url_safe-cases url) [
    | inl (safe, public) ↦ inl (
      public,
      rw (safe, send_budget_alert)
          (answer_of (is_2xx post (post w).0) (is_2xx post (post (post w).1).0) _ _),
    )
    | inr (unsafe, internal) ↦ inr (internal, rw (unsafe, send_budget_alert) refl)
  ]
