-- ===== src/Kernel/Policy/Refusals.antt =====
-- What `_evaluate_policy` of src/cybercore/action_kernel.py demands, stated without its order.
use cyber_core.Base.{
  ℕ, String, true, false, ◌≡◌, refl, ◌≢◌, Option, none, some, Dict, lookup, contains, string_eq,
  arith, eq_iff, ltb,
}
use cyber_core.Kernel.{Kernel, valid_provenance}
use cyber_core.Kernel.Types.{
  TaskRequest, CapabilityDescriptor, Encoding, sized, unencodable, too_deep, schema_version,
  action_contract, capability_contract,
}
use cyber_core.Kernel.Policy.{
  early_refusal, is_valid_descriptor, is_status, inventory_refusal, arguments_refusal,
  target_refusal, descriptor_refusal, late_refusal, overflow,
}

-- The caller and the shape of the request.
pub record IsAdmissible (k : Kernel) (req : TaskRequest) (actor : String) : Type 0 where
  pub enabled : k.enabled ≡ true
  pub caller : actor ≢ ""
  pub allowed : contains k.actors actor ≡ true
  pub claimed : req.actor ≡ actor
  pub schema : req.schema_version ≡ schema_version
  pub contract : req.nexus_contract_family ≡ action_contract
  pub origin : valid_provenance req.provenance ≡ true
  pub task : req.task_id ≢ ""
  pub correlation : req.correlation_id ≢ ""
  pub requested_aware : req.requested_at.is_aware ≡ true
  pub expires_aware : req.expires_at.is_aware ≡ true

-- What the request asks for.
pub record IsServable (k : Kernel) (req : TaskRequest) : Type 0 where
  pub unused : contains k.used req.task_id ≡ false
  pub descriptor : CapabilityDescriptor
  pub declared : lookup req.capability k.capabilities ≡ some descriptor
  pub schema : descriptor.schema_version ≡ schema_version
  pub contract : descriptor.nexus_contract_family ≡ capability_contract
  pub name : descriptor.name ≡ req.capability
  pub mode : descriptor.mode ≡ "read"
  pub target : contains descriptor.allowed_targets req.target_id ≡ true
  pub inventory : Dict String String
  pub listed : lookup req.target_id k.targets ≡ some inventory
  pub size : ℕ
  pub encoded : req.arguments.encoding ≡ sized size
  pub bounded : ltb k.max_bytes size ≡ false
  pub without_arguments : descriptor.arguments_allowed ≡ false → req.arguments.is_empty ≡ true
  pub status : String
  pub reported : lookup "synthetic_status" inventory ≡ some status
  pub known : is_status status ≡ true

module _ (k : Kernel) (req : TaskRequest) (actor : String) where
  pub IsAdmissible-none : IsAdmissible k req actor → early_refusal k req actor ≡ none
  unfolding early_refusal
  IsAdmissible-none a = ground (
    arith,
    eq_iff actor "",
    eq_iff req.actor "",
    eq_iff req.actor actor,
    eq_iff req.schema_version schema_version,
    eq_iff req.nexus_contract_family action_contract,
    eq_iff req.task_id "",
    eq_iff req.correlation_id "",
  )

  pub none-IsAdmissible : early_refusal k req actor ≡ none → IsAdmissible k req actor
  unfolding early_refusal
  none-IsAdmissible h = record {
    enabled = ground arith;
    caller = ground (arith, eq_iff actor "");
    allowed = ground arith;
    claimed = ground (arith, eq_iff req.actor actor);
    schema = ground (arith, eq_iff req.schema_version schema_version);
    contract = ground (arith, eq_iff req.nexus_contract_family action_contract);
    origin = ground arith;
    task = ground (arith, eq_iff req.task_id "");
    correlation = ground (arith, eq_iff req.correlation_id "");
    requested_aware = ground arith;
    expires_aware = ground arith;
  }

  pub IsServable-none : IsServable k req → late_refusal k req ≡ none
  unfolding late_refusal descriptor_refusal is_valid_descriptor
  IsServable-none a = ground (
    arith,
    eq_iff a.descriptor.schema_version schema_version,
    eq_iff a.descriptor.nexus_contract_family capability_contract,
    eq_iff a.descriptor.name req.capability,
    eq_iff a.descriptor.mode "read",
  )

  descriptor-none :
      (found : Option CapabilityDescriptor)
      → descriptor_refusal k req found ≡ none
      → (d : CapabilityDescriptor) × (found ≡ some d)
        × (is_valid_descriptor req d ≡ true)
        × (contains d.allowed_targets req.target_id ≡ true)
        × (target_refusal k req d (lookup req.target_id k.targets) ≡ none)
  unfolding descriptor_refusal
  descriptor-none none h = ground arith
  descriptor-none (some d) h = (d, refl, ground arith, ground arith, ground arith)

  target-none :
      (d : CapabilityDescriptor) (found : Option (Dict String String))
      → target_refusal k req d found ≡ none
      → (inventory : Dict String String) × (found ≡ some inventory)
        × (arguments_refusal k req d inventory req.arguments.encoding ≡ none)
  unfolding target_refusal
  target-none d none h = ground arith
  target-none d (some inventory) h = (inventory, refl, h)

  arguments-none :
      (d : CapabilityDescriptor) (inventory : Dict String String) (encoding : Encoding)
      → arguments_refusal k req d inventory encoding ≡ none
      → (size : ℕ) × (encoding ≡ sized size)
        × (ltb k.max_bytes size ≡ false)
        × (d.arguments_allowed ≡ false → req.arguments.is_empty ≡ true)
        × (inventory_refusal (lookup "synthetic_status" inventory) ≡ none)
  unfolding arguments_refusal
  arguments-none d inventory unencodable h = ground arith
  arguments-none d inventory too_deep h = ground arith
  arguments-none d inventory (sized size) h =
      (size, refl, ground arith, λ bare. ground arith, ground arith)

  inventory-none :
      (found : Option String)
      → inventory_refusal found ≡ none
      → (status : String) × (found ≡ some status) × (is_status status ≡ true)
  unfolding inventory_refusal
  inventory-none none h = ground arith
  inventory-none (some status) h = (status, refl, ground arith)

  late-none :
      late_refusal k req ≡ none
      → (contains k.used req.task_id ≡ false)
        × (descriptor_refusal k req (lookup req.capability k.capabilities) ≡ none)
  unfolding late_refusal
  late-none h = (ground arith, ground arith)

  pub none-IsServable : late_refusal k req ≡ none → IsServable k req
  unfolding is_valid_descriptor
  none-IsServable h =
      let (unused, h1) = late-none h in
      let (d, declared, valid, target, h2) = descriptor-none _ h1 in
      let (inventory, listed, h3) = target-none d _ h2 in
      let (size, encoded, bounded, bare, h4) = arguments-none d inventory _ h3 in
      let (status, reported, known) = inventory-none _ h4 in
      record {
        unused = unused;
        descriptor = d;
        declared = declared;
        schema = ground (arith, valid, eq_iff d.schema_version schema_version);
        contract = ground (arith, valid, eq_iff d.nexus_contract_family capability_contract);
        name = ground (arith, valid, eq_iff d.name req.capability);
        mode = ground (arith, valid, eq_iff d.mode "read");
        target = target;
        inventory = inventory;
        listed = listed;
        size = size;
        encoded = encoded;
        bounded = bounded;
        without_arguments = bare;
        status = status;
        reported = reported;
        known = known;
      }

  -- Only the arguments can nest too deep.
  pub overflow-too_deep : late_refusal k req ≡ some overflow → req.arguments.encoding ≡ too_deep
  unfolding late_refusal descriptor_refusal target_refusal arguments_refusal inventory_refusal
  overflow-too_deep h = ground arith
