-- ===== src/Execution/Stable/Rows.antt =====
-- The readers of Docker's rows and of the whole report of src/cybercore/execution/server/inventory.py, run again on
-- what they returned.
use cyber_core.Base.{
  ℕ, suc, String, ◌≡◌, refl, sym, ap, subst, ◌∙◌, Option, none, some, List, [], arith, Bool-cases,
  inl, inr, ltb, if◌then◌else◌, contains, all,
}
use cyber_core.Execution.Json.{
  Json, null, boolean, integer, number, text, array, object, Items, end, item, Fields, get,
  has_keys,
}
use cyber_core.Execution.Inventory.{
  ◌>>=◌, Container, Storage, Docker, Inventory, require_exact_dict, require_non_empty_text,
  require_boolean, require_int,
}
use cyber_core.Execution.Docker.{
  items, read_version, read_container, read_storage, read_rows, read_bounded, read_docker,
}
use cyber_core.Execution.Report.{
  container_json, storage_json, rows_json, version_json, docker_json, inventory_json,
  validate_inventory_payload,
}
use cyber_core.Execution.Stable.{
  bind-elim, bind-from, some_inj, require_text-again, require_non_empty_text-again, unless-elim,
  read_host-again, read_memory-again, read_filesystem-again,
}

read_container-again :
    (v : Json) (c : Container)
    → read_container v ≡ some c
    → read_container (container_json c) ≡ some c
unfolding read_container container_json require_exact_dict has_keys contains all get
read_container-again v =
    let P : Container → Type 0 = λ c. read_container (container_json c) ≡ some c in
    bind-elim P _ _ (λ f e. bind-elim P _ _ (λ name n. bind-elim P _ _ (λ image m.
      bind-elim P _ _ (λ status s. bind-elim P _ _ (λ ports t. bind-elim P _ _ (λ size z c made.
        subst P (some_inj made) (
          bind-from _ _ _ _ refl (
            bind-from _ _ name _ (require_non_empty_text-again 256 _ name n) (
              bind-from _ _ image _ (require_non_empty_text-again 512 _ image m) (
                bind-from _ _ status _ (require_non_empty_text-again 256 _ status s) (
                  bind-from _ _ ports _ (require_text-again 1024 _ ports t) (
                    bind-from _ _ size _ (require_non_empty_text-again 128 _ size z)
                      refl))))))))))))

read_storage-again :
    (v : Json) (s : Storage) → read_storage v ≡ some s → read_storage (storage_json s) ≡ some s
unfolding read_storage storage_json require_exact_dict has_keys contains all get
read_storage-again v =
    let P : Storage → Type 0 = λ s. read_storage (storage_json s) ≡ some s in
    bind-elim P _ _ (λ f e. bind-elim P _ _ (λ kind k. bind-elim P _ _ (λ total t.
      bind-elim P _ _ (λ active a. bind-elim P _ _ (λ size z.
        bind-elim P _ _ (λ reclaimable r s made. subst P (some_inj made) (
          bind-from _ _ _ _ refl (
            bind-from _ _ kind _ (require_non_empty_text-again 128 _ kind k) (
              bind-from _ _ total _ (require_non_empty_text-again 64 _ total t) (
                bind-from _ _ active _ (require_non_empty_text-again 64 _ active a) (
                  bind-from _ _ size _ (require_non_empty_text-again 128 _ size z) (
                    bind-from _ _ reclaimable _ (require_non_empty_text-again 128 _ reclaimable r)
                      refl))))))))))))

module _ {A : Type 0} (read : Json → Option A) (print : A → Json)
    (again : (v : Json) (a : A) → read v ≡ some a → read (print a) ≡ some a) where
  read_rows-again :
      (xs : Items) (rows : List A)
      → read_rows read xs ≡ some rows
      → (read_rows read (rows_json print rows) ≡ some rows)
        × (items (rows_json print rows) ≡ items xs)
  unfolding read_rows rows_json items
  read_rows-again end rows h =
      let e : [] ≡ rows = some_inj h in
      subst (λ r. (read_rows read (rows_json print r) ≡ some r) × (items (rows_json print r) ≡ 0)) e
        (refl, refl)
  read_rows-again (item x xs) rows h =
      let P : List A → Type 0 = λ r.
        (read_rows read (rows_json print r) ≡ some r)
        × (items (rows_json print r) ≡ suc (items xs)) in
      bind-elim P _ _
        (λ row one. bind-elim P _ _ (λ later more r made.
          let (read_later, counted) = read_rows-again xs later more in
          subst P (some_inj made) (
            bind-from _ _ row _ (again x row one) (bind-from _ _ later _ read_later refl),
            ap (λ n. suc n) counted,
          )))
        rows h

  read_bounded-again :
      (most : ℕ) (value : Option Json) (rows : List A)
      → read_bounded read most value ≡ some rows
      → read_bounded read most (some (array (rows_json print rows))) ≡ some rows
  unfolding read_bounded
  read_bounded-again most (some (array xs)) rows h = elim (Bool-cases (ltb most (items xs))) [
    | inl long ↦ absurd (ground (arith, h, long))
    | inr short ↦
        let (again_read, counted) = read_rows-again xs rows (sym (rw short refl) ∙ h) in
        ap (λ n. if ltb most n then none else read_rows read (rows_json print rows)) counted
        ∙ rw short again_read
  ]
  read_bounded-again most _ rows h = absurd (ground (arith, h))

read_version-text :
    (value : Option Json) (s : String)
    → require_non_empty_text 128 value ≡ some s
    → read_version (some (text s)) ≡ some (some s)
unfolding read_version
read_version-text value s h = bind-from _ _ s _ (require_non_empty_text-again 128 value s h) refl

version_text-again :
    (value : Option Json) (version : Option String)
    → (require_non_empty_text 128 value >>= λ s. some (some s)) ≡ some version
    → read_version (some (version_json version)) ≡ some version
unfolding version_json
version_text-again value version =
    let P : Option String → Type 0 = λ v. read_version (some (version_json v)) ≡ some v in
    bind-elim P _ _ (λ s e v made. subst P (some_inj made) (read_version-text value s e)) version

read_version-again :
    (value : Option Json) (version : Option String)
    → read_version value ≡ some version
    → read_version (some (version_json version)) ≡ some version
unfolding read_version version_json
read_version-again (some null) version h =
    subst (λ v. read_version (some (version_json v)) ≡ some v) (some_inj h) refl
read_version-again (some (text s)) version h = version_text-again (some (text s)) version h
read_version-again none version h = version_text-again none version h
read_version-again (some (boolean b)) version h = version_text-again (some (boolean b)) version h
read_version-again (some (integer n)) version h = version_text-again (some (integer n)) version h
read_version-again (some (number x)) version h = version_text-again (some (number x)) version h
read_version-again (some (array xs)) version h = version_text-again (some (array xs)) version h
read_version-again (some (object f)) version h = version_text-again (some (object f)) version h

read_docker-again :
    (f : Fields) (d : Docker) → read_docker f ≡ some d → read_docker (docker_json d) ≡ some d
unfolding read_docker docker_json get require_boolean
read_docker-again f =
    let P : Docker → Type 0 = λ d. read_docker (docker_json d) ≡ some d in
    bind-elim P _ _ (λ present b. bind-elim P _ _ (λ access t. bind-elim P _ _ (λ version v.
      bind-elim P _ _ (λ containers c. bind-elim P _ _ (λ storage s d made.
        unless-elim P _ _ d made (λ passes. bind-from _ _ present _ refl (
          bind-from _ _ access _ (require_text-again 64 _ access t) (
            bind-from _ _ version _ (read_version-again _ version v) (
              bind-from _ _ containers _
                (read_bounded-again read_container container_json read_container-again 100 _
                  containers c)
                (bind-from _ _ storage _
                  (read_bounded-again read_storage storage_json read_storage-again 16 _ storage s)
                  passes))))))))))

-- What `validate_inventory_payload` returns passes `validate_inventory_payload`, unchanged.
pub validate_inventory_payload-again :
    (v : Json) (i : Inventory)
    → validate_inventory_payload v ≡ some i
    → validate_inventory_payload (inventory_json i) ≡ some i
unfolding validate_inventory_payload inventory_json require_exact_dict has_keys contains all get
    require_int
validate_inventory_payload-again v =
    let P : Inventory → Type 0 = λ i. validate_inventory_payload (inventory_json i) ≡ some i in
    bind-elim P _ _ (λ root r. bind-elim P _ _ (λ schema n. bind-elim P _ _ (λ supported_version o.
      bind-elim P _ _ (λ host_fields hf. bind-elim P _ _ (λ memory_fields mf.
        bind-elim P _ _ (λ filesystem_fields ff. bind-elim P _ _ (λ docker_fields df.
          bind-elim P _ _ (λ host h. bind-elim P _ _ (λ memory m. bind-elim P _ _ (λ filesystem s.
            bind-elim P _ _ (λ docker d i made. subst P (some_inj made) (
              bind-from _ _ _ _ refl (
                bind-from _ _ 1 _ refl (
                  bind-from _ _ 1 _ refl (
                    bind-from _ _ _ _ refl (
                      bind-from _ _ _ _ refl (
                        bind-from _ _ _ _ refl (
                          bind-from _ _ _ _ refl (
                            bind-from _ _ host _ (read_host-again host_fields host h) (
                              bind-from _ _ memory _ (read_memory-again memory_fields memory m) (
                                bind-from _ _ filesystem _
                                  (read_filesystem-again filesystem_fields filesystem s)
                                  (bind-from _ _ docker _ (read_docker-again docker_fields docker d)
                                    refl))))))))))))))))))))))
