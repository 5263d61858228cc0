-- ===== src/Orchestrator/Sections.antt =====
-- src/octw/orchestrator/docker_orch.py: the sections of openclaw.json that `configure_tenant` writes.
use octw.Prelude.{
  Text, codes, true, false, Option, none, some, [], ◌∷◌, ◌≡◌, refl, ◌∙◌, arith, ◌==◌, text_eq,
  text_beq, inl, inr,
}
use octw.Exec.{ok, type_error, attribute_error, continue, Result-cases}
use octw.Models.Provider.{ProviderSpec}
use octw.Json.{
  Value, null, bool, number, string, array, object, Fields, end, field, get, set, get_or_empty,
  fields_or, at, at-set, get-set_other, at-set_other,
}
use octw.Orchestrator.Names.{gateway_port}
use octw.Orchestrator.Configure.{
  fallback_key, configure_gateway, configure_model, drop_stale, write_custom,
}

-- The gateway's own section.
abbrev pub IsGateway : Fields → Type 0
IsGateway g =
    (at (codes "bind" ∷ []) (object g) ≡ some (string (codes "lan")))
    × (at (codes "port" ∷ []) (object g) ≡ some (number gateway_port))
    × (at (codes "controlUi" ∷ fallback_key ∷ []) (object g) ≡ some (bool true))

abbrev bound : Fields → Fields
bound g = set (codes "port") (number gateway_port) (set (codes "bind") (string (codes "lan")) g)

abbrev shown : Fields → Fields → Fields
shown g u = set (codes "controlUi") (object (set fallback_key (bool true) u)) (bound g)

shown-IsGateway : (g u : Fields) → IsGateway (shown g u)
unfolding text_beq at
shown-IsGateway g u =
    let ui = object (set fallback_key (bool true) u) in
    let bind = set (codes "bind") (string (codes "lan")) g in
    (
      at-set_other (codes "controlUi") (codes "bind") [] ui (bound g) refl
          ∙ at-set_other (codes "port") (codes "bind") [] (number gateway_port) bind refl
          ∙ at-set (codes "bind") [] (string (codes "lan")) g,
      at-set_other (codes "controlUi") (codes "port") [] ui (bound g) refl
          ∙ at-set (codes "port") [] (number gateway_port) bind,
      at-set (codes "controlUi") (fallback_key ∷ []) ui (bound g)
          ∙ at-set fallback_key [] (bool true) u,
    )

pub configure_gateway-sets :
    (d : Fields)
    → (configure_gateway d).0 ≡ ok tt
    → (g : Fields) × (((configure_gateway d).1 ≡ set (codes "gateway") (object g) d) × IsGateway g)
unfolding configure_gateway
configure_gateway-sets d h =
    elim (Result-cases (fields_or type_error (get_or_empty (codes "gateway") d))) [
      | inl (g, q) ↦
          elim (Result-cases (fields_or type_error (get_or_empty (codes "controlUi") (bound g)))) [
            | inl (u, r) ↦ (shown g u, (rw (q, r, continue) refl, shown-IsGateway g u))
            | inr (x, r) ↦ absurd (ground arith)
          ]
      | inr (x, q) ↦ absurd (ground arith)
    ]

-- The primary model of a section of agents.
abbrev pub IsModel : Text → Fields → Type 0
IsModel id a =
    at (codes "defaults" ∷ codes "model" ∷ codes "primary" ∷ []) (object a) ≡ some (string id)

abbrev with_model : Text → Fields → Fields → Fields
with_model id a defaults =
    set (codes "defaults")
      (object (set (codes "model") (object (field (codes "primary") (string id) end)) defaults)) a

with_model-IsModel : (id : Text) (a defaults : Fields) → IsModel id (with_model id a defaults)
unfolding text_beq at get
with_model-IsModel id a defaults =
    let model = object (field (codes "primary") (string id) end) in
    at-set (codes "defaults") (codes "model" ∷ codes "primary" ∷ [])
      (object (set (codes "model") model defaults)) a
    ∙ at-set (codes "model") (codes "primary" ∷ []) model defaults

pub configure_model-sets :
    (spec : ProviderSpec) (d : Fields)
    → (configure_model spec d).0 ≡ ok tt
    → (a : Fields) × (((configure_model spec d).1 ≡ set (codes "agents") (object a) d)
        × IsModel spec.model_id a)
unfolding configure_model
configure_model-sets spec d h =
    elim (Result-cases (fields_or attribute_error (get_or_empty (codes "agents") d))) [
      | inl (a, q) ↦
          elim (Result-cases (fields_or type_error (get_or_empty (codes "defaults") a))) [
            | inl (u, r) ↦ (
              with_model spec.model_id a u,
              (rw (q, r, continue) refl, with_model-IsModel spec.model_id a u),
            )
            | inr (x, r) ↦ absurd (ground arith)
          ]
      | inr (x, q) ↦ absurd (ground arith)
    ]

-- The entries of the providers stand under `models` alone.
pub drop_stale-other :
    (name j : Text) (o : Option Value) (d : Fields)
    → (codes "models" == j) ≡ false
    → get j (drop_stale name o d).1 ≡ get j d
unfolding drop_stale
drop_stale-other name j none d h = refl
drop_stale-other name j (some (object m)) d h =
    grind (arith, λ (v : Value). get-set_other (codes "models") j v d h)
drop_stale-other name j (some null) d h = refl
drop_stale-other name j (some (bool b)) d h = refl
drop_stale-other name j (some (number b)) d h = refl
drop_stale-other name j (some (string b)) d h = refl
drop_stale-other name j (some (array b)) d h = refl

pub write_custom-other :
    (spec : ProviderSpec) (j : Text) (d : Fields)
    → (codes "models" == j) ≡ false
    → get j (write_custom spec d).1 ≡ get j d
unfolding write_custom
write_custom-other spec j d h = grind (arith, λ (v : Value). get-set_other (codes "models") j v d h)
