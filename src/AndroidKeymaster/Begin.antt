-- ===== src/AndroidKeymaster/Begin.antt =====
-- BeginOperation of android_keymaster.cpp: what it does to the table of operations, and what has been
-- checked where it gives a handle.
use platform_system_keymaste.Common.{
  ℕ, ◌≡◌, inl, inr, refl, ap, sym, subst, ◌∙◌, Bool, true, false, List, Option, none, some, arith,
  if◌then◌else◌, Bool-cases,
}
use platform_system_keymaste.Defs.{KeymasterDefs, KeymasterError, is_ok, Tag, Purpose}
use platform_system_keymaste.AuthSet.{
  AuthorizationSet, Allocator, done, out_of_bounds, reinitialize, empty_set,
}
use platform_system_keymaste.AuthSet.View.{view}
use platform_system_keymaste.AuthSet.Lookup.{get_tag_value_enum}
use platform_system_keymaste.Enforcement.{KeymasterEnforcement}
use platform_system_keymaste.Enforcement.Authorize.Scan.{authorize_operation}
use platform_system_keymaste.OperationTable.{OperationTable, add}
use platform_system_keymaste.OperationTable.Laws.{IsTable}
use platform_system_keymaste.OperationTable.Map.{Updates}
use platform_system_keymaste.OperationTable.Adding.{IsFresh, Keeps, IsAdded, add-IsAdded}
use platform_system_keymaste.Interfaces.{
  Operation, KeyFactory, KeymasterContext, Surroundings, Key, OperationFactory,
}
use platform_system_keymaste.AndroidKeymaster.{
  AndroidKeymaster, Response, failed, load_key, get_key_factory, enforce_begin, set_authorizations,
  start_operation, authorize_and_start, create_and_start, begin_operation,
}

ok-eq : (err : KeymasterError) → is_ok err ≡ true → err ≡ KeymasterError.ok
ok-eq err h = ground arith

module _ {S : Type 0} where
  -- With KM_ERROR_OK the handle of the response names an operation as `P` says, and nothing else changes;
  -- with an error the table finds what it found.
  abbrev pub IsStarted :
      (Operation S → Type 0) → OperationTable (Operation S) → Response × AndroidKeymaster S → Type 0
  IsStarted P t (r, k') =
      if is_ok r.error
      then ((op : Operation S) × Updates r.op_handle (some op) t k'.operation_table × P op)
      else Keeps t k'.operation_table

  IsStarted-weaken :
      (P Q : Operation S → Type 0) (t : OperationTable (Operation S))
      (q : Response × AndroidKeymaster S)
      → ((op : Operation S) → P op → Q op)
      → IsStarted P t q
      → IsStarted Q t q
  IsStarted-weaken P Q t (r, k') f = by_error (is_ok r.error)
    where
      by_error :
          (b : Bool)
          → (if b
              then ((op : Operation S) × Updates r.op_handle (some op) t k'.operation_table × P op)
              else Keeps t k'.operation_table)
          → (if b
              then ((op : Operation S) × Updates r.op_handle (some op) t k'.operation_table × Q op)
              else Keeps t k'.operation_table)
      by_error true (op, u, p) = (op, u, f op p)
      by_error false same = same

  -- What the enforcement policy has been asked, where there is one: whether the key's authorizations
  -- allow the purpose of the request.
  abbrev pub IsAllowed :
      KeymasterContext S
      → Surroundings
      → Purpose
      → List ℕ
      → AuthorizationSet
      → AuthorizationSet
      → Option KeymasterEnforcement
      → Operation S
      → Type 0
  IsAllowed c w purpose key_blob params key none op = Unit
  IsAllowed c w purpose key_blob params key (some e) op =
      (c.create_key_id key_blob ≡ some op.key_id)
      × ((authorize_operation c.defs w.context e purpose op.key_id key params 0 true).0
          ≡ KeymasterError.ok)

  -- CreateOperation of the key's factory for the purpose gave an operation with this purpose.
  abbrev pub IsCreated : KeyFactory S → Purpose → Key → AuthorizationSet → Operation S → Type 0
  IsCreated f purpose key params op =
      (factory : OperationFactory S) × (err : KeymasterError) × (body : S)
      × (f.get_operation_factory purpose ≡ some factory)
      × (factory.create_operation key params ≡ (err, some (op.purpose, body)))

  -- The key was loaded and allows the purpose, and the new operation is from its factory for it.
  abbrev pub IsAuthorized :
      KeymasterContext S
      → Surroundings
      → Purpose
      → List ℕ
      → AuthorizationSet
      → Option KeymasterEnforcement
      → Operation S
      → Type 0
  IsAuthorized c w purpose key_blob params e op =
      (f : KeyFactory S) × (key : Key) × (load_key c key_blob params
        ≡ (KeymasterError.ok, some (f, key)))
      × IsCreated f purpose key params op
      × IsAllowed c w purpose key_blob params key.authorizations e op

  -- A factory without an operation gives an error.
  abbrev pub IsCreator : OperationFactory S → Type 0
  IsCreator factory =
      (key : Key) (params : AuthorizationSet)
      → (factory.create_operation key params).1 ≡ none
      → is_ok (factory.create_operation key params).0 ≡ false

  abbrev pub HasCreators : KeymasterContext S → Type 0
  HasCreators c =
      (f : KeyFactory S) (key_blob : List ℕ) (params : AuthorizationSet) (key : Key)
      → load_key c key_blob params ≡ (KeymasterError.ok, some (f, key))
      → (purpose : Purpose) (factory : OperationFactory S)
      → f.get_operation_factory purpose ≡ some factory
      → IsCreator factory

  -- The operation without the authorizations that it keeps and its state.
  abbrev IsSame : Operation S → Operation S → Type 0
  IsSame op op' = (op'.purpose ≡ op.purpose) × (op'.key_id ≡ op.key_id)

  set_authorizations-IsSame :
      (d : KeymasterDefs) (al : Allocator) (auths : AuthorizationSet) (op : Operation S)
      → IsSame op (set_authorizations d al auths op)
  unfolding set_authorizations
  set_authorizations-IsSame d al auths op =
      elim (reinitialize d al (view d auths) op.key_auths)
        as (λ o. IsSame op (elim o as (λ x. Operation S) [
          | done b s ↦ record op { key_auths = s }
          | out_of_bounds ↦ op
        ])) [ done b s ↦ (refl, refl) | out_of_bounds ↦ (refl, refl) ]

  start_operation-IsStarted :
      (c : KeymasterContext S) (w : Surroundings) (key params : AuthorizationSet) (op : Operation S)
      (k : AndroidKeymaster S) (P : Operation S → Type 0)
      → IsTable k.operation_table
      → IsFresh w.handle k.operation_table
      → ((op' : Operation S) → IsSame op op' → P op')
      → IsStarted P k.operation_table (start_operation c w key params op k)
  unfolding start_operation
  start_operation-IsStarted c w key params op k P fine fresh kept =
      elim (Bool-cases (is_ok begun)) [
        | inl ok_begun ↦ rw ok_begun (by_error _ refl added)
        | inr wrong ↦ rw (wrong, wrong) (λ h. refl, fine)
      ]
    where
      begun : KeymasterError
      begun = (c.methods.begin op.body params).0

      op' : Operation S
      op' =
          set_authorizations c.defs w.allocator key
            (record op { body = (c.methods.begin op.body params).1 })

      q : KeymasterError × Option ℕ × OperationTable (Operation S)
      q = add w.table_granted w.handle op' k.operation_table

      added : IsAdded op' k.operation_table q
      added = add-IsAdded w.table_granted w.handle op' k.operation_table fine fresh

      handle : ℕ
      handle = elim (q.1) [ none ↦ 0 | some h ↦ h ]

      by_error :
          (b : Bool)
          → is_ok (q.0) ≡ b
          → (if b
              then ((h : ℕ) × (q.1 ≡ some h) × Updates h (some op') k.operation_table (q.2))
              else Keeps k.operation_table (q.2))
          → (if b
              then ((o : Operation S) × Updates handle (some o) k.operation_table (q.2) × P o)
              else Keeps k.operation_table (q.2))
      by_error false e same = same
      by_error true e (h, out, u) = (
        op',
        subst (λ n. Updates n (some op') k.operation_table (q.2))
            (sym (ap (λ o. elim o as (λ x. ℕ) [ none ↦ 0 | some n ↦ n ]) out)) u,
        kept op' (set_authorizations-IsSame c.defs w.allocator key _),
      )

  authorize_and_start-IsStarted :
      (c : KeymasterContext S) (w : Surroundings) (purpose : Purpose) (key_blob : List ℕ)
      (params key : AuthorizationSet) (made : Purpose) (body : S) (k : AndroidKeymaster S)
      → IsTable k.operation_table
      → IsFresh w.handle k.operation_table
      → IsStarted
          (λ op. (op.purpose ≡ made) × IsAllowed c w purpose key_blob params key k.enforcement op)
          k.operation_table
          (authorize_and_start c w purpose key_blob key params (made, body) k)
  unfolding authorize_and_start enforce_begin
  authorize_and_start-IsStarted c w purpose key_blob params key made body k fine fresh =
      by_policy k.enforcement
    where
      new_operation : ℕ → Operation S
      new_operation key_id = record {
        purpose = made;
        key_id = key_id;
        key_auths = empty_set;
        body = body;
      }

      by_policy :
          (o : Option KeymasterEnforcement)
          → IsStarted
              (λ op. (op.purpose ≡ made) × IsAllowed c w purpose key_blob params key o op)
              k.operation_table
              (authorize_and_start c w purpose key_blob key params
                (made, body)
                (record k { enforcement = o }))
      by_policy none =
          start_operation-IsStarted c w key params (new_operation 0)
            (record k { enforcement = none }) _ fine fresh (λ op' same. (same.0, tt))
      by_policy (some e) = by_key (c.create_key_id key_blob) refl
        where
          by_error :
              (key_id : ℕ)
              → c.create_key_id key_blob ≡ some key_id
              → (q : KeymasterError × KeymasterEnforcement)
              → authorize_operation c.defs w.context e purpose key_id key params 0 true ≡ q
              → IsStarted
                  (λ op.
                    (op.purpose ≡ made) × IsAllowed c w purpose key_blob params key (some e) op)
                  k.operation_table
                  (if is_ok (q.0)
                    then start_operation c w key params
                        (new_operation key_id)
                        (record k { enforcement = some (q.1) })
                    else (failed (q.0), record k { enforcement = some (q.1) }))
          by_error key_id found (err, e') asked = elim (Bool-cases (is_ok err)) [
            | inl allowed ↦ rw allowed (
                start_operation-IsStarted c w key params (new_operation key_id)
                  (record k { enforcement = some e' }) _ fine fresh
                  (λ op' same. (
                    same.0,
                    (found ∙ ap some (sym same.1), rw (same.1, asked) (ok-eq err allowed)),
                  )))
            | inr refused ↦ rw (refused, refused) (λ h. refl, fine)
          ]

          resume : KeymasterError × ℕ × Option KeymasterEnforcement → Response × AndroidKeymaster S
          resume q =
              if is_ok (q.0)
              then start_operation c w key params (new_operation (q.1))
                  (record k { enforcement = q.2 })
              else (failed (q.0), record k { enforcement = q.2 })

          by_key :
              (o : Option ℕ)
              → c.create_key_id key_blob ≡ o
              → IsStarted
                  (λ op.
                    (op.purpose ≡ made) × IsAllowed c w purpose key_blob params key (some e) op)
                  k.operation_table
                  (resume (elim o as (λ x. KeymasterError × ℕ × Option KeymasterEnforcement) [
                    | none ↦ (KeymasterError.unknown_error, 0, some e)
                    | some key_id ↦
                        let (err, e') =
                          authorize_operation c.defs w.context e purpose key_id key params 0 true in
                        (err, key_id, some e')
                  ]))
          by_key none missing = (λ h. refl, fine)
          by_key (some key_id) found = by_error key_id found _ refl

  create_and_start-IsStarted :
      (c : KeymasterContext S) (w : Surroundings) (purpose : Purpose) (key_blob : List ℕ)
      (params : AuthorizationSet) (key : Key) (f : KeyFactory S) (k : AndroidKeymaster S)
      → ((factory : OperationFactory S)
          → f.get_operation_factory purpose ≡ some factory
          → IsCreator factory)
      → IsTable k.operation_table
      → IsFresh w.handle k.operation_table
      → IsStarted
          (λ op.
            IsCreated f purpose key params op
            × IsAllowed c w purpose key_blob params key.authorizations k.enforcement op)
          k.operation_table
          (create_and_start c w purpose key_blob params f key k)
  unfolding create_and_start
  create_and_start-IsStarted c w purpose key_blob params key f k creators fine fresh =
      by_algorithm (get_tag_value_enum key.authorizations (c.defs.tag_value Tag.algorithm))
    where
      P : Operation S → Type 0
      P op =
          IsCreated f purpose key params op
          × IsAllowed c w purpose key_blob params key.authorizations k.enforcement op

      by_body :
          (factory : OperationFactory S)
          → f.get_operation_factory purpose ≡ some factory
          → (q : KeymasterError × Option (Purpose × S)) → factory.create_operation key params ≡ q
          → (q.1 ≡ none → is_ok (q.0) ≡ false)
          → IsStarted P k.operation_table (elim (q.1) as (λ x. Response × AndroidKeymaster S) [
            | none ↦ (failed (q.0), k)
            | some s ↦ authorize_and_start c w purpose key_blob key.authorizations params s k
          ])
      by_body factory found (err, none) e wrong = rw (wrong refl) (λ h. refl, fine)
      by_body factory found (err, some (made, body)) e wrong =
          IsStarted-weaken _ P k.operation_table
            (authorize_and_start c w purpose key_blob key.authorizations params (made, body) k)
            (λ op h.
              ((factory, err, body, found, e ∙ ap (λ p. (err, some (p, body))) (sym h.0)), h.1))
            (authorize_and_start-IsStarted c w purpose key_blob params key.authorizations made body
              k fine fresh)

      by_factory :
          (o : Option (OperationFactory S))
          → f.get_operation_factory purpose ≡ o
          → IsStarted P k.operation_table (elim o as (λ x. Response × AndroidKeymaster S) [
            | none ↦ (failed KeymasterError.unsupported_purpose, k)
            | some factory ↦
                let (err, body) = factory.create_operation key params in
                elim body [
                  | none ↦ (failed err, k)
                  | some s ↦ authorize_and_start c w purpose key_blob key.authorizations params s k
                ]
          ])
      by_factory none e = (λ h. refl, fine)
      by_factory (some factory) e =
          by_body factory e (factory.create_operation key params) refl
            (creators factory e key params)

      by_algorithm :
          (o : Option ℕ)
          → IsStarted P k.operation_table (elim o as (λ x. Response × AndroidKeymaster S) [
            | none ↦ (failed KeymasterError.unknown_error, k)
            | some algorithm ↦ elim (f.get_operation_factory purpose) [
              | none ↦ (failed KeymasterError.unsupported_purpose, k)
              | some factory ↦
                  let (err, body) = factory.create_operation key params in
                  elim body [
                    | none ↦ (failed err, k)
                    | some s ↦
                        authorize_and_start c w purpose key_blob key.authorizations params s k
                  ]
            ]
          ])
      by_algorithm none = (λ h. refl, fine)
      by_algorithm (some algorithm) = by_factory (f.get_operation_factory purpose) refl

  get_key_factory-missing :
      (c : KeymasterContext S) (hw sw : AuthorizationSet)
      → (get_key_factory c hw sw).1 ≡ none
      → is_ok (get_key_factory c hw sw).0 ≡ false
  unfolding get_key_factory
  get_key_factory-missing c hw sw missing = ground arith

  load_key-missing :
      (c : KeymasterContext S) (key_blob : List ℕ) (params : AuthorizationSet)
      → (load_key c key_blob params).1 ≡ none
      → is_ok (load_key c key_blob params).0 ≡ false
  unfolding load_key
  load_key-missing c key_blob params missing =
      let parsed = (c.parse_key_blob key_blob params).1 in
      ground (arith, get_key_factory-missing c parsed.hw_enforced parsed.sw_enforced)

  -- `BeginOperation`, for factories that give an error where they give no operation, and a random handle
  -- that is not in use: with KM_ERROR_OK the key was loaded, the enforcement policy, if there is one, has
  -- allowed the request's purpose for the key's authorizations and its id, and the response's handle names
  -- an operation with that id, of the purpose that CreateOperation of the key's factory for the request's
  -- purpose gave it; no other handle changes. With an error no handle changes.
  pub begin_operation-IsStarted :
      (c : KeymasterContext S) (w : Surroundings) (purpose : Purpose) (key_blob : List ℕ)
      (params : AuthorizationSet) (k : AndroidKeymaster S)
      → HasCreators c
      → IsTable k.operation_table
      → IsFresh w.handle k.operation_table
      → IsStarted
          (IsAuthorized c w purpose key_blob params k.enforcement)
          k.operation_table
          (begin_operation c w purpose key_blob params k)
  unfolding begin_operation
  begin_operation-IsStarted c w purpose key_blob params k creators fine fresh =
      by_load (load_key c key_blob params) refl (load_key-missing c key_blob params)
    where
      by_load :
          (q : KeymasterError × Option (KeyFactory S × Key))
          → load_key c key_blob params ≡ q
          → (q.1 ≡ none → is_ok (q.0) ≡ false)
          → IsStarted (IsAuthorized c w purpose key_blob params k.enforcement) k.operation_table (
              if is_ok (q.0)
              then elim (q.1) as (λ x. Response × AndroidKeymaster S) [
                | none ↦ (failed (q.0), k)
                | some (f, key) ↦ create_and_start c w purpose key_blob params f key k
              ]
              else (failed (q.0), k))
      by_load (err, none) e wrong = rw (wrong refl, wrong refl) (λ h. refl, fine)
      by_load (err, some (f, key)) e wrong = elim (Bool-cases (is_ok err)) [
        | inr refused ↦ rw (refused, refused) (λ h. refl, fine)
        | inl loaded ↦
            (let e2 = e ∙ ap (λ r. (r, some (f, key))) (ok-eq err loaded) in
              rw loaded (
                weaken f key e2 (
                  create_and_start-IsStarted c w purpose key_blob params key f k
                    (creators f key_blob params key e2 purpose) fine fresh)))
      ]
        where
          weaken :
              (f : KeyFactory S) (key : Key)
              → load_key c key_blob params ≡ (KeymasterError.ok, some (f, key))
              → IsStarted
                  (λ op.
                    IsCreated f purpose key params op
                    × IsAllowed c w purpose key_blob params key.authorizations k.enforcement op)
                  k.operation_table
                  (create_and_start c w purpose key_blob params f key k)
              → IsStarted
                  (IsAuthorized c w purpose key_blob params k.enforcement)
                  k.operation_table
                  (create_and_start c w purpose key_blob params f key k)
          weaken f key e2 started =
              IsStarted-weaken _ _ k.operation_table
                (create_and_start c w purpose key_blob params f key k)
                (λ op h. (f, key, e2, h.0, h.1)) started
