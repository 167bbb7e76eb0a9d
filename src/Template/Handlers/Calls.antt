-- ===== src/Template/Handlers/Calls.antt =====
-- internal/controller/template/template.go: which calls the handlers may make of RunPod, and when.
use provider_runpod.Base.{
  String, ◌≡◌, ◌≢◌, ◌≤◌, refl, inl, inr, Bool, true, false, List, [], ◌∷◌, Option, none, some,
  Result, ok, err, arith, eq_iff, not_found, Bool-cases, lookup_or, All, length, select, any,
  and_split,
}
use provider_runpod.Identifier.{is_runpod_id}
use provider_runpod.Client.Types.{Template, Endpoint}
use provider_runpod.Apis.{TemplateResource, EndpointResource, Time, Condition, creating, deleting}
use provider_runpod.Apis.Crossplane.{Crossplane}
use provider_runpod.Apis.Reader.{Reader}
use provider_runpod.Managed.{ambiguous_absence_confirmed, template_keys}
use provider_runpod.Template.Settings.{check_template}
use provider_runpod.Template.Handlers.{
  TemplateService, TemplateCall, get, create, delete, list, is_bound_template, template_id,
  check_unbound, refers_to_template,
}
use provider_runpod.Template.Handlers.Create.{create_external_template, recover_ambiguous_template}
use provider_runpod.Template.Handlers.Change.{
  delete_external_template, on_doomed_template, on_external_endpoints, on_referring,
}

abbrev pub creates : TemplateCall → Bool
creates (create _) = true
creates _ = false

abbrev pub deletes : TemplateCall → Bool
deletes (delete _) = true
deletes _ = false

check_template-conditions :
    (cr : TemplateResource) (cs : List Condition) (now : Time)
    → check_template (record cr { conditions = cs }) now ≡ check_template cr now
unfolding check_template
check_template-conditions cr cs now = refl

-- Create makes at most one create call of RunPod. It makes one only if no absence was acknowledged,
-- the object has a UID, its image, name, ports and lifetime pass their checks, and it does not already
-- carry the mark of an ambiguous create.
pub create_template_guards :
    (x : Crossplane) (reader : Reader) (svc : TemplateService) (now : Time) (cr : TemplateResource)
    → (length (select creates (create_external_template x reader svc now cr).calls) ≤ 1)
      × (any creates (create_external_template x reader svc now cr).calls ≡ true
          → (lookup_or "" ambiguous_absence_confirmed cr.metadata.annotations ≡ "")
            × (cr.metadata.uid ≢ "")
            × (check_template cr now ≡ ok tt)
            × (lookup_or "" template_keys.ambiguous_create_name cr.metadata.annotations ≡ ""))
unfolding create_external_template recover_ambiguous_template
create_template_guards x reader svc now cr = ground (
  arith,
  check_template-conditions cr (creating ∷ cr.conditions) now,
  eq_iff (lookup_or "" ambiguous_absence_confirmed cr.metadata.annotations) "",
  eq_iff cr.metadata.uid "",
  eq_iff (lookup_or "" template_keys.ambiguous_create_name cr.metadata.annotations) "",
)

-- A Template ID that is valid, and another than the given one.
abbrev pub IsOther : String → Endpoint → Type 0
IsOther id endpoint = (is_runpod_id endpoint.template_id ≡ true) × (endpoint.template_id ≢ id)

check_unbound-IsOther :
    (id : String) (endpoints : List Endpoint)
    → check_unbound id endpoints ≡ ok tt
    → All (IsOther id) endpoints
check_unbound-IsOther id [] h = tt
check_unbound-IsOther id (e ∷ es) h =
    ground (arith, eq_iff e.template_id id, check_unbound-IsOther id es)

-- The two listings that a deletion stands on.
pub record IsUnbound (reader : Reader) (svc : TemplateService) (namespace name id : String)
    : Type 0 where
  pub objects :
      (es : List EndpointResource) × (reader.list_endpoints namespace ≡ ok es)
      × (any (refers_to_template name) es ≡ false)
  pub external : (es : List Endpoint) × (svc.list_endpoints ≡ ok es) × All (IsOther id) es

module _ (x : Crossplane) (reader : Reader) (svc : TemplateService) (now : Time)
    (cr : TemplateResource) (id : String) where
  doomed-calls :
      (r : Result (Option Template))
      → any deletes (on_doomed_template x reader svc now cr id r).calls ≡ true
      → (on_doomed_template x reader svc now cr id r).calls ≡ list ∷ get id ∷ delete id ∷ []
  doomed-calls (ok (some _)) h = refl
  doomed-calls (ok none) h = cc
  doomed-calls (err not_found) h = cc
  doomed-calls (err _) h = cc

  abbrev OthersListed : Type 0
  OthersListed = (es : List Endpoint) × (svc.list_endpoints ≡ ok es) × All (IsOther id) es

  external-calls :
      (r : Result (List Endpoint))
      → svc.list_endpoints ≡ r
      → any deletes (on_external_endpoints x reader svc now cr id r).calls ≡ true
      → OthersListed
        × ((on_external_endpoints x reader svc now cr id r).calls ≡ list ∷ get id ∷ delete id ∷ [])
  external-calls (err e) told h = cc
  external-calls (ok es) told h =
      let checked : check_unbound id es ≡ ok tt = ground arith in
      (
        (es, told, check_unbound-IsOther id es checked),
        ground (arith, doomed-calls (svc.get_template id)),
      )

  referring-calls :
      (r : Result (List EndpointResource))
      → reader.list_endpoints cr.metadata.namespace ≡ r
      → any deletes (on_referring x reader svc now cr id r).calls ≡ true
      → IsUnbound reader svc cr.metadata.namespace cr.metadata.name id
        × ((on_referring x reader svc now cr id r).calls ≡ list ∷ get id ∷ delete id ∷ [])
  referring-calls (err e) told h = cc
  referring-calls (ok es) told h =
      elim (Bool-cases (any (refers_to_template cr.metadata.name) es)) [
        | inl used ↦ cc (rw used at h)
        | inr unused ↦
            let (others, calls) = external-calls svc.list_endpoints refl (rw unused at h) in
            (record { objects = (es, told, unused); external = others }, rw unused calls)
      ]

-- Delete makes a delete call only for a Template that is bound: its external name is a valid ID and
-- the one in the status; and only if no Endpoint object of the namespace refers to it and RunPod's own
-- list was read and holds only Endpoints with valid IDs of other Templates. The call follows that
-- listing and a GET, it is for the bound ID, and it is the last one.
pub delete_template_guards :
    (x : Crossplane) (reader : Reader) (svc : TemplateService) (now : Time) (cr : TemplateResource)
    → any deletes (delete_external_template x reader svc now cr).calls ≡ true
    → (is_runpod_id (template_id x reader svc now cr) ≡ true)
      × (cr.at_provider.id ≡ template_id x reader svc now cr)
      × IsUnbound reader svc cr.metadata.namespace cr.metadata.name
          (template_id x reader svc now cr)
      × ((delete_external_template x reader svc now cr).calls
          ≡ list
            ∷ get (template_id x reader svc now cr)
            ∷ delete (template_id x reader svc now cr)
            ∷ [])
unfolding delete_external_template
delete_template_guards x reader svc now cr h =
    elim (Bool-cases (is_bound_template x reader svc now cr)) [
      | inl bound ↦
          let (valid, same) = and_split _ _ bound in
          let (unbound, calls) =
            referring-calls x reader svc now (record cr { conditions = deleting ∷ cr.conditions })
              (template_id x reader svc now cr) (reader.list_endpoints cr.metadata.namespace) refl
              (rw bound at h) in
          (valid, (eq_iff _ _).0 same, unbound, rw bound calls)
      | inr loose ↦ cc (rw loose at h)
    ]
