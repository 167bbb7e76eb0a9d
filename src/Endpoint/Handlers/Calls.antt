-- ===== src/Endpoint/Handlers/Calls.antt =====
-- internal/controller/endpoint/endpoint.go: which calls the handlers may make of RunPod, and when.
use provider_runpod.Base.{
  ◌≤◌, String, ◌≡◌, ◌≢◌, refl, Bool, true, false, List, [], ◌∷◌, Option, none, some, Result, ok,
  err, not_found, arith, eq_iff, str_eq, lookup_or, length, select, any, ◌&&◌,
}
use provider_runpod.Identifier.{is_runpod_id}
use provider_runpod.Client.Types.{Endpoint}
use provider_runpod.Apis.{EndpointResource, EndpointCheck, Time, Condition, creating}
use provider_runpod.Apis.Crossplane.{Crossplane}
use provider_runpod.Apis.Reader.{Reader}
use provider_runpod.Managed.{ambiguous_absence_confirmed, endpoint_keys}
use provider_runpod.Endpoint.Settings.{
  endpoint_input, TemplateBinding, endpoint_name, validate, ensure_lifetime_active,
}
use provider_runpod.Endpoint.Handlers.{
  Service, Call, get, create, update, delete, external_id, refers_to, pending_name,
}
use provider_runpod.Endpoint.Handlers.Observe.{observe, on_found, observe_bound, on_read}
use provider_runpod.Endpoint.Handlers.Create.{create_external, recover_ambiguous_create}
use provider_runpod.Endpoint.Handlers.Change.{update_external, delete_external}

abbrev pub is_create : Call → Bool
is_create (create _) = true
is_create _ = false

abbrev pub is_delete : Call → Bool
is_delete (delete _) = true
is_delete _ = false

-- An Endpoint under the given name and a valid ID.
abbrev pub is_own : String → Result Endpoint → Bool
is_own name (ok got) = str_eq got.name name && is_runpod_id got.id
is_own name (err _) = false

-- An answer with an Endpoint in it.
abbrev pub is_present : Result (Option Endpoint) → Bool
is_present (ok (some _)) = true
is_present _ = false

abbrev pub is_update : Call → Bool
is_update (update _ _) = true
is_update _ = false

validate-conditions :
    (cr : EndpointResource) (cs : List Condition) (id : String)
    → validate (record cr { conditions = cs }) id ≡ validate cr id
unfolding validate
validate-conditions cr cs id = refl

-- Create makes at most one create call of RunPod. It makes one only if no absence was acknowledged,
-- the object has a UID, the settings pass the validation, the lifetime is active and the object does
-- not already carry the mark of an ambiguous create. It deletes nothing.
pub create_external_guards :
    (x : Crossplane) (reader : Reader) (svc : Service) (t : TemplateBinding) (now : Time)
    (cr : EndpointResource)
    → (length (select is_create (create_external x reader svc t now cr).calls) ≤ 1)
      × (any is_create (create_external x reader svc t now cr).calls ≡ true
          → (lookup_or "" ambiguous_absence_confirmed cr.metadata.annotations ≡ "")
            × (cr.metadata.uid ≢ "")
            × (validate cr t.id ≡ ok tt)
            × (ensure_lifetime_active cr.metadata cr.spec.max_lifetime_seconds now ≡ ok tt)
            × (lookup_or "" endpoint_keys.ambiguous_create_name cr.metadata.annotations ≡ ""))
      × (any is_delete (create_external x reader svc t now cr).calls ≡ false)
unfolding create_external recover_ambiguous_create
create_external_guards x reader svc t now cr = ground (
  arith,
  validate-conditions cr (creating ∷ cr.conditions) t.id,
  eq_iff (lookup_or "" ambiguous_absence_confirmed cr.metadata.annotations) "",
  eq_iff cr.metadata.uid "",
  eq_iff (lookup_or "" endpoint_keys.ambiguous_create_name cr.metadata.annotations) "",
)

-- Delete makes a delete call only for an Endpoint that is bound: its external name is a valid ID and
-- the one in the status; and only if the EndpointChecks of the namespace could be listed and none of
-- them refers to the Endpoint. The call is for that ID, it follows a GET, and it is the last one.
pub delete_external_guards :
    (x : Crossplane) (reader : Reader) (svc : Service) (t : TemplateBinding) (now : Time)
    (cr : EndpointResource)
    → any is_delete (delete_external x reader svc t now cr).calls ≡ true
    → (is_runpod_id (external_id x reader svc t now cr) ≡ true)
      × (cr.at_provider.id ≡ external_id x reader svc t now cr)
      × ((checks : List EndpointCheck) × (reader.list_checks cr.metadata.namespace ≡ ok checks)
          × (any (refers_to cr.metadata.name) checks ≡ false))
      × ((delete_external x reader svc t now cr).calls
          ≡ get (external_id x reader svc t now cr)
            ∷ delete (external_id x reader svc t now cr)
            ∷ [])
unfolding delete_external
delete_external_guards x reader svc t now cr h =
    ground (arith, eq_iff cr.at_provider.id (external_id x reader svc t now cr))

module _ (x : Crossplane) (reader : Reader) (svc : Service) (t : TemplateBinding) (now : Time) where
  read-silent :
      (cr : EndpointResource) (id : String) (r : Result (Option Endpoint))
      → (on_read x reader svc t now cr id r).calls ≡ get id ∷ []
  read-silent cr id (ok (some got)) = ground arith
  read-silent cr id (ok none) = refl
  read-silent cr id (err not_found) = ground arith
  read-silent cr id (err _) = refl

  abbrev IsSilent : List Call → Type 0
  IsSilent calls =
      (any is_create calls ≡ false) × (any is_delete calls ≡ false) × (any is_update calls ≡ false)

  bound-IsSilent :
      (cr : EndpointResource) (id : String)
      → IsSilent (observe_bound x reader svc t now cr id).calls
  unfolding observe_bound
  bound-IsSilent cr id = ground (arith, read-silent cr id (svc.get_endpoint id))

  found-updates :
      (cr : EndpointResource) (name : String) (r : Result Endpoint)
      → (any is_create (on_found x reader svc t now cr name r).calls ≡ false)
        × (any is_delete (on_found x reader svc t now cr name r).calls ≡ false)
        × (any is_update (on_found x reader svc t now cr name r).calls ≡ true
            → (cr.metadata.is_deleting ≡ false) × (is_own name r ≡ true))
  unfolding on_found
  found-updates cr name (err e) = ground arith
  found-updates cr name (ok got) = ground arith

-- Observe makes no create and no delete call. It makes an update call only in the recovery of an
-- ambiguous create of an object that is not being deleted, and only if the Endpoint that was found
-- under the object's own name carries that name and a valid ID.
pub observe_guards :
    (x : Crossplane) (reader : Reader) (svc : Service) (t : TemplateBinding) (now : Time)
    (cr : EndpointResource)
    → (any is_create (observe x reader svc t now cr).calls ≡ false)
      × (any is_delete (observe x reader svc t now cr).calls ≡ false)
      × (any is_update (observe x reader svc t now cr).calls ≡ true
          → (cr.metadata.is_deleting ≡ false)
            × (pending_name x reader svc t now cr ≡ endpoint_name cr)
            × (is_own (endpoint_name cr) (svc.find_endpoint_by_name (endpoint_name cr)) ≡ true))
unfolding observe
observe_guards x reader svc t now cr = ground (
  arith,
  eq_iff (pending_name x reader svc t now cr) (endpoint_name cr),
  bound-IsSilent x reader svc t now cr (external_id x reader svc t now cr),
  found-updates x reader svc t now cr (endpoint_name cr)
      (svc.find_endpoint_by_name (endpoint_name cr)),
)

-- Update makes an update call only if the settings pass the validation, the lifetime is active, the
-- object is bound to its external name, and a GET of that ID answered with an Endpoint first. The call
-- sends the whole bounded input, and it is the last one.
pub update_external_guards :
    (x : Crossplane) (reader : Reader) (svc : Service) (t : TemplateBinding) (now : Time)
    (cr : EndpointResource)
    → any is_update (update_external x reader svc t now cr).calls ≡ true
    → (validate cr t.id ≡ ok tt)
      × (ensure_lifetime_active cr.metadata cr.spec.max_lifetime_seconds now ≡ ok tt)
      × (is_runpod_id (external_id x reader svc t now cr) ≡ true)
      × (cr.at_provider.id ≡ external_id x reader svc t now cr)
      × (is_present (svc.get_endpoint (external_id x reader svc t now cr)) ≡ true)
      × ((update_external x reader svc t now cr).calls
          ≡ get (external_id x reader svc t now cr)
            ∷ update (external_id x reader svc t now cr) (endpoint_input cr t.id)
            ∷ [])
unfolding update_external
update_external_guards x reader svc t now cr h =
    ground (arith, eq_iff cr.at_provider.id (external_id x reader svc t now cr))
