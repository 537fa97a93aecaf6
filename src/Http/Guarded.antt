-- ===== src/Http/Guarded.antt =====
-- Who may submit a prompt, in src/http/handlers.rs.
use cs_stratum_bridge.Base.{
  ℕ, ◌≡◌, ◌≢◌, refl, ap, ◌∙◌, ◌⊎◌, inl, inr, Text, codes, Bool, true, false, Bool-cases, Option,
  none, some, All,
}
use cs_stratum_bridge.RateLimit.{RateLimiter, IpAddr}
use cs_stratum_bridge.RateLimit
use cs_stratum_bridge.Daemon.{CsdRpcClient}
use cs_stratum_bridge.Engine.Submit
use cs_stratum_bridge.Shard.Dispatch
use cs_stratum_bridge.Http.{
  PromptRequest, AppState, Response, refused, is_authorized, accept_response, submit_prompt,
}
use cs_stratum_bridge.Http.Bitwise.{IsByte, constant_time_eq_sound, constant_time_eq_refl}

abbrev pub AreBytes : Option Text → Type 0
AreBytes none = Unit
AreBytes (some text) = All IsByte text

-- The address is within its rate and the key is the configured one: both engines get the prompt, and the
-- answer says whether the request was found.
abbrev pub Accepts :
    {W : Type 0}
    → CsdRpcClient W
    → (Text → Text)
    → Bool
    → Option Text
    → PromptRequest
    → AppState
    → W
    → Response × AppState × W
    → Type 0
Accepts csd hex_encode allowed provided body s w (r, s', w') =
    let prompt_hex : Text = hex_encode body.prompt in
    let (found, engine, w'') =
      Submit.receive_prompt csd body.request_id prompt_hex body.model body.max_tokens s.engine w in
    (allowed ≡ true)
    × (provided ≡ some s.opoi_requester_api_key)
    × (r ≡ accept_response found)
    × (s'.engine ≡ engine)
    × (s'.shard_engine ≡ Dispatch.receive_prompt body.request_id prompt_hex s.shard_engine)
    × (w' ≡ w'')

-- The address is over its rate, or the key is not the configured one: no engine is asked, nor the daemon.
abbrev pub Refuses :
    {W : Type 0} → Bool → Option Text → AppState → W → Response × AppState × W → Type 0
Refuses allowed provided s w (r, s', w') =
    (((allowed ≡ false) × (r ≡ refused 429 (codes "rate limit exceeded, slow down")))
      ⊎ ((allowed ≡ true)
          × (provided ≢ some s.opoi_requester_api_key)
          × (r ≡ refused 401 (codes "missing or invalid x-opoi-api-key"))))
    × (s'.engine ≡ s.engine)
    × (s'.shard_engine ≡ s.shard_engine)
    × (w' ≡ w)

is_authorized_sound :
    (key : Text) (provided : Option Text)
    → All IsByte key
    → AreBytes provided
    → is_authorized key provided ≡ true
    → provided ≡ some key
is_authorized_sound key none hk hp h = absurd (cc)
is_authorized_sound key (some p) hk hp h = ap (λ t. some t) (constant_time_eq_sound p key hp hk h)

is_authorized_complete :
    (key : Text) (provided : Option Text) → is_authorized key provided ≡ false → provided ≢ some key
is_authorized_complete key provided h same =
    let own : is_authorized key provided ≡ true =
      ap (is_authorized key) same ∙ constant_time_eq_refl key in
    absurd (cc)

module _ {W : Type 0} (csd : CsdRpcClient W) (hex_encode : Text → Text) where
  -- A prompt reaches the two engines exactly if its address is within the rate and the key of the request
  -- is the configured one, byte for byte; otherwise it is refused with 429 or 401, and neither the engines
  -- nor the daemon are touched. Provided that both keys are bytes.
  pub submit_prompt-Guarded :
      (peer : IpAddr) (now : ℕ) (provided : Option Text) (body : PromptRequest) (s : AppState)
      (w : W)
      → All IsByte s.opoi_requester_api_key
      → AreBytes provided
      → let allowed = (RateLimit.check peer now s.prompt_rate_limiter).0 in
        let answer = submit_prompt csd hex_encode peer now provided body s w in
        Accepts csd hex_encode allowed provided body s w answer
        ⊎ Refuses allowed provided s w answer
  unfolding submit_prompt
  submit_prompt-Guarded peer now provided body s w hk hp =
      elim (Bool-cases (RateLimit.check peer now s.prompt_rate_limiter).0) [
        | inr over ↦ rw over (inr (inl (refl, refl), refl, refl, refl))
        | inl within ↦ elim (Bool-cases (is_authorized s.opoi_requester_api_key provided)) [
          | inr bad ↦
              let other = is_authorized_complete s.opoi_requester_api_key provided bad in
              rw (within, bad) (inr (inr (refl, other, refl), refl, refl, refl))
          | inl good ↦
              let key = is_authorized_sound s.opoi_requester_api_key provided hk hp good in
              rw (within, good) (inl (refl, key, refl, refl, refl, refl))
        ]
      ]
