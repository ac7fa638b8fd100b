-- ===== src/Api/Webhook.antt =====
-- pkg/api/api.go: which webhook requests are let through.
use event_reactor.Base.{
  true, none, some, List, [], ◌∷◌, ◌++◌, All, ap, refl, ◌==◌, String, if◌then◌else◌, ◌≡◌, ◌≢◌, ◌⊎◌,
  arith, inl, inr, eq_iff, Bool-cases,
}
use event_reactor.Base.Dict.{lookup, insert, is_empty}
use event_reactor.Base.Result.{ok, err, Result-cases}
use event_reactor.Base.Text.{trim_prefix}
use event_reactor.Base.Value.{object, Fields, Bytes}
use event_reactor.Message.{Codec, Event}
use event_reactor.Config.{WebhookSecret}
use event_reactor.Api.{
  Request, refused, dispatched, invalid_signature, invalid_json, webhook_secret, signature,
  webhook_event, is_authentic, handle_webhook,
}
use event_reactor.Api.Signature.{validate_hmac, validate_hmac_iff, hex_decode}

-- A secret's entry is for another source.
abbrev pub IsForOther : String → WebhookSecret → Type 0
IsForOther source wh = wh.source ≢ source

-- What the request carries as its signature: the first of two headers that is set.
abbrev pub Carries : Request → String → Type 0
Carries req sent =
    (sent ≢ "")
    × ((req.header "X-Hub-Signature-256" ≡ sent)
        ⊎ ((req.header "X-Hub-Signature-256" ≡ "") × (req.header "X-Signature-256" ≡ sent)))

-- The first entry for the source.
pub record Governs (source : String) (secrets : List WebhookSecret) (wh : WebhookSecret)
    : Type 0 where
  pub before : List WebhookSecret
  pub after : List WebhookSecret
  pub split : secrets ≡ before ++ (wh ∷ after)
  pub others : All (IsForOther source) before
  pub for_source : wh.source ≡ source

webhook_secret-none :
    (source : String) (secrets : List WebhookSecret)
    → All (IsForOther source) secrets
    → webhook_secret source secrets ≡ ""
unfolding webhook_secret
webhook_secret-none source [] h = refl
webhook_secret-none source (wh ∷ rest) (p, h) =
    let ih = webhook_secret-none source rest h in ground (arith, eq_iff wh.source source)

webhook_secret-first :
    (source : String) (before after : List WebhookSecret) (wh : WebhookSecret)
    → All (IsForOther source) before
    → wh.source ≡ source
    → webhook_secret source (before ++ (wh ∷ after)) ≡ wh.secret
unfolding webhook_secret
webhook_secret-first source [] after wh h e = ground (arith, eq_iff wh.source source)
webhook_secret-first source (x ∷ xs) after wh (p, h) e =
    let ih = webhook_secret-first source xs after wh h e in ground (arith, eq_iff x.source source)

-- The entries are all for other sources, or the first that is not is found.
webhook_secret_cases :
    (source : String) (secrets : List WebhookSecret)
    → All (IsForOther source) secrets ⊎ ((wh : WebhookSecret) × Governs source secrets wh)
webhook_secret_cases source [] = inl tt
webhook_secret_cases source (wh ∷ rest) = elim (Bool-cases (wh.source == source)) [
  | inl same ↦ inr (
    wh,
    record {
      before = [];
      after = rest;
      split = refl;
      others = tt;
      for_source = (eq_iff wh.source source).0 same;
    },
  )
  | inr other ↦
      let apart : wh.source ≢ source = λ e. ground (arith, eq_iff wh.source source) in
      elim (webhook_secret_cases source rest) [
        | inl h ↦ inl (apart, h)
        | inr (x, g) ↦ inr (
          x,
          record {
            before = wh ∷ g.before;
            after = g.after;
            split = ap (λ l. wh ∷ l) g.split;
            others = (apart, g.others);
            for_source = g.for_source;
          },
        )
      ]
]

webhook_secret-Governs :
    (source : String) (secrets : List WebhookSecret) (wh : WebhookSecret)
    → Governs source secrets wh
    → webhook_secret source secrets ≡ wh.secret
webhook_secret-Governs source secrets wh g =
    rw g.split (webhook_secret-first source g.before g.after wh g.others g.for_source)

-- A text is the signature that `signature` takes exactly if it is not empty and the request carries it.
signature-Carries : (req : Request) → signature req ≢ "" → Carries req (signature req)
unfolding signature
signature-Carries req h = elim (Bool-cases (is_empty (req.header "X-Hub-Signature-256"))) [
  | inl bare ↦ (h, inr ((eq_iff _ _).0 bare, rw (bare, signature) refl))
  | inr given ↦ (h, inl (rw (given, signature) refl))
]

Carries-signature : (req : Request) (sent : String) → Carries req sent → signature req ≡ sent
unfolding signature
Carries-signature req sent (set, inl first) =
    ground (arith, eq_iff (req.header "X-Hub-Signature-256") "")
Carries-signature req sent (set, inr (bare, second)) = rw (bare, signature) second

module _ (mac : String → Bytes → Bytes) (secrets : List WebhookSecret) (req : Request)
    (source : String) (body : Bytes) where
  -- No entry is for the source; or the first that is has no secret, or the request carries the HMAC of
  -- the body under its secret, as hexadecimal text that may follow "sha256=".
  abbrev pub MayPass : Type 0
  MayPass =
      All (IsForOther source) secrets
      ⊎ ((wh : WebhookSecret) × Governs source secrets wh
          × ((wh.secret ≡ "")
              ⊎ ((sent : String) × Carries req sent
                  × (hex_decode (trim_prefix "sha256=" sent) ≡ some (mac wh.secret body)))))

  signed :
      (secret : String)
      → validate_hmac mac body (signature req) secret ≡ true
      → (sent : String) × Carries req sent
        × (hex_decode (trim_prefix "sha256=" sent) ≡ some (mac secret body))
  signed secret h =
      let (set, decoded) = (validate_hmac_iff mac body (signature req) secret).0 h in
      (signature req, signature-Carries req set, decoded)

  is_authentic-MayPass : is_authentic mac secrets req source body ≡ true → MayPass
  unfolding is_authentic
  is_authentic-MayPass h = elim (webhook_secret_cases source secrets) [
    | inl none_set ↦ inl none_set
    | inr (wh, g) ↦
        let found = webhook_secret-Governs source secrets wh g in
        elim (Bool-cases (is_empty wh.secret)) [
          | inl free ↦ inr (wh, g, inl ((eq_iff _ _).0 free))
          | inr set ↦ inr (wh, g, inr (signed wh.secret (ground arith)))
        ]
  ]

  MayPass-is_authentic : MayPass → is_authentic mac secrets req source body ≡ true
  unfolding is_authentic
  MayPass-is_authentic (inl free) = rw (webhook_secret-none source secrets free, is_authentic) refl
  MayPass-is_authentic (inr (wh, g, inl free)) =
      rw (webhook_secret-Governs source secrets wh g, free, is_authentic) refl
  MayPass-is_authentic (inr (wh, g, inr (sent, carries, decoded))) =
      let same = Carries-signature req sent carries in
      let found = webhook_secret-Governs source secrets wh g in
      let valid = (validate_hmac_iff mac body sent wh.secret).1 (carries.0, decoded) in ground arith

  -- A request whose body was read is refused with 401 if it may not pass, whatever is in it. If it
  -- may pass, it is refused with 400 if the body is not a JSON object, and dispatched otherwise, as
  -- the payload of an event of that source.
  pub handle_webhook_cases :
      (codec : Codec) (content_type : String)
      → let reply = handle_webhook mac codec secrets req content_type source (ok body) in
        ((¬ MayPass) × (reply ≡ refused 401 invalid_signature))
        ⊎ (MayPass
            × ((e : String) × (codec.unmarshal body ≡ err e))
            × (reply ≡ refused 400 invalid_json))
        ⊎ (MayPass
            × ((fs : Fields) × (ev : Event) × (codec.unmarshal body ≡ ok fs)
                × (reply ≡ dispatched ev)
                × (ev.source ≡ source)
                × (ev.payload ≡ object fs)))
  unfolding handle_webhook webhook_event
  handle_webhook_cases codec content_type =
      elim (Bool-cases (is_authentic mac secrets req source body)) [
        | inl passed ↦
            let may = is_authentic-MayPass passed in
            elim (Result-cases (codec.unmarshal body)) [
              | inl (fs, e) ↦ inr (
                  inr (
                    may,
                    (
                      fs,
                      webhook_event req content_type source fs,
                      e,
                      ground arith,
                      ground arith,
                      ground arith,
                    ),
                  ))
              | inr (x, e) ↦ inr (inl (may, (x, e), ground arith))
            ]
        | inr stopped ↦ inl (λ may. ground (arith, MayPass-is_authentic may), ground arith)
      ]

-- The event of a webhook request has the source, the content type and, if it is not empty, the
-- type under the attributes of those names.
pub webhook_event-attributes :
    (req : Request) (content_type source : String) (fs : Fields)
    → let ev = webhook_event req content_type source fs in
      (lookup "source" ev.attributes ≡ some source)
      × (lookup "content-type" ev.attributes ≡ some content_type)
      × (lookup "type" ev.attributes ≡ (if is_empty ev.type then none else some ev.type))
unfolding webhook_event lookup insert
webhook_event-attributes req content_type source fs = ground arith
