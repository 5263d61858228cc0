-- ===== src/Orchestrator/Configured.antt =====
-- src/octw/orchestrator/docker_orch.py: what `configure_tenant` leaves in openclaw.json.
use octw.Prelude.{
  Text, codes, true, false, Option, none, some, List, [], ◌∷◌, ◌≡◌, refl, ap, ◌∙◌, arith, ◌==◌,
  text_eq, text_beq_iff, text_beq, inl, inr, has, if◌then◌else◌,
}
use octw.Exec.{ok, ⊤, Op, gets, ◌>>=◌, continue, Result-cases}
use octw.Models.Provider.{ProviderSpec}
use octw.Json.{
  Value, bool, number, string, object, Fields, get, set, at, get-set, get-set_other, at-found,
}
use octw.Orchestrator.Names.{gateway_port}
use octw.Orchestrator.Sections.{
  configure_gateway-sets, configure_model-sets, drop_stale-other, write_custom-other,
}
use octw.Orchestrator.Configure.{
  fallback_key, configure_gateway, configure_model, drop_stale, write_custom, configure_provider,
  configure,
}

-- The sections that are rewritten.
abbrev pub sections : List Text
sections = codes "gateway" ∷ codes "agents" ∷ codes "models" ∷ []

-- A key of the configuration outside these sections.
abbrev pub outside : Text → Fields → Option Value
outside j d = if has j sections then none else get j d

-- What `configure_tenant` leaves of a configuration.
abbrev pub Configured : ProviderSpec → Text → Fields → Fields → Type 0
Configured spec j d d' =
    (at (codes "gateway" ∷ codes "bind" ∷ []) (object d') ≡ some (string (codes "lan")))
    × (at (codes "gateway" ∷ codes "port" ∷ []) (object d') ≡ some (number gateway_port))
    × (at (codes "gateway" ∷ codes "controlUi" ∷ fallback_key ∷ []) (object d') ≡ some (bool true))
    × (at (codes "agents" ∷ codes "defaults" ∷ codes "model" ∷ codes "primary" ∷ []) (object d')
        ≡ some (string spec.model_id))
    × (outside j d' ≡ outside j d)

provider_step : ProviderSpec → Op Fields ⊤
provider_step spec = do
  models ← gets (get (codes "models"))
  if spec.builtin then drop_stale spec.provider_name models else write_custom spec

provider_step-other :
    (spec : ProviderSpec) (j : Text) (d : Fields)
    → (codes "models" == j) ≡ false
    → get j (provider_step spec d).1 ≡ get j d
unfolding provider_step
provider_step-other spec j d h = ground (
  arith,
  drop_stale-other spec.provider_name j (get (codes "models") d) d,
  write_custom-other spec j d,
)

configure-steps :
    (spec : ProviderSpec) (d : Fields)
    → (configure (some spec) d).0 ≡ ok tt
    → let d1 = (configure_gateway d).1 in
      let d2 = (configure_model spec d1).1 in
      ((configure_gateway d).0 ≡ ok tt)
      × ((configure_model spec d1).0 ≡ ok tt)
      × ((configure (some spec) d).1 ≡ (provider_step spec d2).1)
unfolding configure configure_provider provider_step
configure-steps spec d h = elim (Result-cases (configure_gateway d).0) [
  | inl (u, q) ↦ elim (Result-cases (configure_model spec (configure_gateway d).1).0) [
    | inl (v, r) ↦ (q, r, rw (q, r, continue) refl)
    | inr (x, r) ↦ absurd (ground arith)
  ]
  | inr (x, q) ↦ absurd (ground arith)
]

-- After the two sections are set, and the providers are changed in `d3`.
module _ (g a d d3 : Fields) where
  abbrev both : Fields
  both = set (codes "agents") (object a) (set (codes "gateway") (object g) d)

  kept_gateway :
      get (codes "gateway") d3 ≡ get (codes "gateway") both
      → get (codes "gateway") d3 ≡ some (object g)
  unfolding text_beq
  kept_gateway h =
      h
      ∙ get-set_other (codes "agents") (codes "gateway") (object a)
          (set (codes "gateway") (object g) d) refl
      ∙ get-set (codes "gateway") (codes "gateway") (object g) d

  kept_agents :
      get (codes "agents") d3 ≡ get (codes "agents") both
      → get (codes "agents") d3 ≡ some (object a)
  unfolding text_beq
  kept_agents h =
      h ∙ get-set (codes "agents") (codes "agents") (object a) (set (codes "gateway") (object g) d)

  kept_outside :
      (j : Text)
      → ((codes "models" == j) ≡ false → get j d3 ≡ get j both)
      → outside j d3 ≡ outside j d
  unfolding has
  kept_outside j h = ground (
    arith,
    h,
    text_beq_iff j (codes "models"),
    text_beq_iff (codes "models") j,
    text_beq_iff j (codes "gateway"),
    text_beq_iff (codes "gateway") j,
    text_beq_iff j (codes "agents"),
    text_beq_iff (codes "agents") j,
    get-set_other (codes "agents") j (object a) (set (codes "gateway") (object g) d),
    get-set_other (codes "gateway") j (object g) d,
  )

-- If openclaw.json is rewritten without an error, the gateway binds to the LAN at its port with
-- the fallback switched on, the agents use the provider's model, and every key outside the
-- sections of the gateway, the agents and the models has the value that it had.
pub configure-Configured :
    (spec : ProviderSpec) (j : Text) (d : Fields)
    → let (r, d') = configure (some spec) d in r ≡ ok tt → Configured spec j d d'
unfolding text_beq
configure-Configured spec j d h =
    let (first, second, third) = configure-steps spec d h in
    let d1 = (configure_gateway d).1 in
    let d3 = (configure (some spec) d).1 in
    let (g, (e1, (bind, port, flag))) = configure_gateway-sets d first in
    let (a, (e2, model)) = configure_model-sets spec d1 second in
    let same : (configure_model spec d1).1 ≡ both g a d d3 =
      e2 ∙ ap (set (codes "agents") (object a)) e1 in
    let other = λ (k : Text) (n : (codes "models" == k) ≡ false).
      ap (get k) third
      ∙ provider_step-other spec k (configure_model spec d1).1 n
      ∙ ap (get k) same in
    let gateway = kept_gateway g a d d3 (other (codes "gateway") refl) in
    let agents = kept_agents g a d d3 (other (codes "agents") refl) in
    (
      at-found (codes "gateway") (codes "bind" ∷ []) (object g) d3 gateway ∙ bind,
      at-found (codes "gateway") (codes "port" ∷ []) (object g) d3 gateway ∙ port,
      at-found (codes "gateway") (codes "controlUi" ∷ fallback_key ∷ []) (object g) d3 gateway
          ∙ flag,
      at-found (codes "agents") (codes "defaults" ∷ codes "model" ∷ codes "primary" ∷ []) (object a)
            d3 agents
          ∙ model,
      kept_outside g a d d3 j (other j),
    )
