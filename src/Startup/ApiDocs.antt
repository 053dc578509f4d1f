-- ===== src/Startup/ApiDocs.antt =====
-- `attachCommonErrorResponses` of apps/gateway/src/main.ts, over the document that
-- SwaggerModule.createDocument made.
use nestjs_microservice_mono.Prelude.{
  String, ◌≡◌, refl, ◌∙◌, true, Bool-cases, inl, inr, Option, none, some, List, [], ◌∷◌, any,
  or_else, or_option, ◌==◌, eq_iff, if◌then◌else◌, arith,
}
use nestjs_microservice_mono.Json.{Json, undefined, str, obj, Fields, end, field, property}
use nestjs_microservice_mono.Context.{is_truthy, with_entry}

-- An operation's responses, by code; what else it documents is left alone.
pub record Operation : Type 0 where
  pub responses : Option Fields
  pub summary : Json

-- The keys of a path item with the operations under them, and the paths of a document.
abbrev pub PathItem : Type 0
PathItem = List (String × Operation)

abbrev pub Document : Type 0
Document = Option (List (String × PathItem))

abbrev pub common_errors : List (String × String)
common_errors =
    ("400", "Validation failed or malformed request")
    ∷ ("401", "Missing or invalid authentication")
    ∷ ("403", "Authenticated but not authorized")
    ∷ ("404", "Resource not found")
    ∷ ("409", "Conflict with existing state")
    ∷ ("429", "Rate limit exceeded")
    ∷ ("500", "Unexpected server error")
    ∷ []

abbrev pub methods : List String
methods = "get" ∷ "post" ∷ "put" ∷ "patch" ∷ "delete" ∷ []

-- `{ description, content: { 'application/json': { schema: errorRef } } }`
unfoldable pub error_response : Json → String → Json
error_response error_ref description = obj (
    field "description" (str description) (
      field "content" (obj (field "application/json" (obj (field "schema" error_ref end)) end))
        end))

-- One round of the inner loop.
document_error : Json → String → String → Fields → Fields
unfolding error_response
document_error error_ref code description responses =
    if is_truthy (or_else (property code responses) undefined)
    then responses
    else with_entry code (error_response error_ref description) responses

document_errors : Json → List (String × String) → Fields → Fields
unfolding document_error
document_errors error_ref [] responses = responses
document_errors error_ref ((code, description) ∷ errors) responses =
    document_errors error_ref errors (document_error error_ref code description responses)

document_operation : Json → Operation → Operation
unfolding document_errors
document_operation error_ref op = record op {
  responses = some (document_errors error_ref common_errors (or_else op.responses end));
}

document_item : Json → PathItem → PathItem
unfolding document_operation
document_item error_ref [] = []
document_item error_ref ((method, op) ∷ ops) =
    (method, if any (λ m. m == method) methods then document_operation error_ref op else op)
    ∷ document_item error_ref ops

document_paths : Json → List (String × PathItem) → List (String × PathItem)
unfolding document_item
document_paths error_ref [] = []
document_paths error_ref ((path, item) ∷ items) =
    (path, document_item error_ref item) ∷ document_paths error_ref items

pub attach_common_error_responses : Json → Document → Document
unfolding document_paths
attach_common_error_responses error_ref none = none
attach_common_error_responses error_ref (some paths) = some (document_paths error_ref paths)

-- The operation of a path under a method.
abbrev pub method_of : String → PathItem → Option Operation
method_of method [] = none
method_of method ((m, op) ∷ ops) = if m == method then some op else method_of method ops

abbrev pub item_of : String → List (String × PathItem) → Option PathItem
item_of path [] = none
item_of path ((p, item) ∷ items) = if p == path then some item else item_of path items

-- The common response of a code.
abbrev pub common : Json → List (String × String) → String → Option Json
common error_ref [] code = none
common error_ref ((c, description) ∷ errors) code =
    if c == code then some (error_response error_ref description) else common error_ref errors code

-- What a code documents after the attachment: what the operation says of it, or else the common response,
-- if there is one.
abbrev pub documented : Json → List (String × String) → String → Option Json → Option Json
documented error_ref errors code own =
    if is_truthy (or_else own undefined) then own else or_option (common error_ref errors code) own

property-with_entry_at :
    (k j : String) (v : Json) (fs : Fields)
    → property k (with_entry j v fs) ≡ (if j == k then some v else property k fs)
unfolding with_entry
property-with_entry_at k j v end = refl
property-with_entry_at k j v (field i w fs) =
    ground (arith, eq_iff j k, eq_iff i k, eq_iff i j, property-with_entry_at k j v fs)

module _ (error_ref : Json) where
  -- An entry that is truthy stays, and any other gives way.
  own_or : Option Json → Json → Option Json
  own_or own v = if is_truthy (or_else own undefined) then own else some v

  error_response-truthy :
      (description : String) → is_truthy (error_response error_ref description) ≡ true
  unfolding error_response is_truthy
  error_response-truthy description = refl

  property-document_error :
      (code c description : String) (responses : Fields)
      → property code (document_error error_ref c description responses) ≡ (
          if c == code
          then own_or (property code responses) (error_response error_ref description)
          else property code responses)
  unfolding document_error own_or
  property-document_error code c description responses = elim (Bool-cases (c == code)) [
    | inl same ↦
        let e : c ≡ code = (eq_iff c code).0 same in
        elim (Bool-cases (is_truthy (or_else (property code responses) undefined))) [
          | inl given ↦ rw (same, e, given) refl
          | inr absent ↦
              rw (same, e, absent)
                (property-with_entry_at code code _ responses ∙ rw ((eq_iff code code).1 refl) refl)
        ]
    | inr other ↦ elim (Bool-cases (is_truthy (or_else (property c responses) undefined))) [
      | inl given ↦ rw (other, given) refl
      | inr absent ↦ rw (other, absent) (property-with_entry_at code c _ responses ∙ rw other refl)
    ]
  ]

  settled :
      (code c description : String) (errors : List (String × String)) (own : Option Json)
      → documented error_ref errors code
          (if c == code then own_or own (error_response error_ref description) else own)
        ≡ documented error_ref ((c, description) ∷ errors) code own
  unfolding own_or
  settled code c description errors own = elim (Bool-cases (c == code)) [
    | inl same ↦ elim (Bool-cases (is_truthy (or_else own undefined))) [
      | inl given ↦ rw (same, given, given) refl
      | inr absent ↦ rw (same, absent, error_response-truthy description) refl
    ]
    | inr other ↦ rw other refl
  ]

  no_errors : (code : String) (own : Option Json) → own ≡ documented error_ref [] code own
  no_errors code own = ground arith

  property-document_errors :
      (code : String) (errors : List (String × String)) (responses : Fields)
      → property code (document_errors error_ref errors responses)
        ≡ documented error_ref errors code (property code responses)
  unfolding document_errors
  property-document_errors code [] responses = no_errors code (property code responses)
  property-document_errors code ((c, description) ∷ errors) responses =
      property-document_errors code errors (document_error error_ref c description responses)
      ∙ rw (property-document_error code c description responses)
          (settled code c description errors (property code responses))

  method_of-document_item :
      (method : String) (ops : PathItem) (op : Operation)
      → any (λ m. m == method) methods ≡ true
      → method_of method ops ≡ some op
      → method_of method (document_item error_ref ops) ≡ some (document_operation error_ref op)
  unfolding document_item
  method_of-document_item method [] op known h = cc
  method_of-document_item method ((m, o) ∷ ops) op known h = elim (Bool-cases (m == method)) [
    | inl same ↦
        let e : m ≡ method = (eq_iff m method).0 same in
        let first : o ≡ op = cc (rw same at h) in
        rw (e, (eq_iff method method).1 refl, known, first) refl
    | inr other ↦ rw other (method_of-document_item method ops op known (rw other at h))
  ]

  item_of-document_paths :
      (path : String) (paths : List (String × PathItem)) (item : PathItem)
      → item_of path paths ≡ some item
      → item_of path (document_paths error_ref paths) ≡ some (document_item error_ref item)
  unfolding document_paths
  item_of-document_paths path [] item h = cc
  item_of-document_paths path ((p, i) ∷ paths) item h = elim (Bool-cases (p == path)) [
    | inl same ↦ let first : i ≡ item = cc (rw same at h) in rw (same, first) refl
    | inr other ↦ rw other (item_of-document_paths path paths item (rw other at h))
  ]

-- After the attachment every operation under one of the five methods says of each status code what
-- it said before, if that is truthy, and otherwise the common response of the code, if there is one;
-- what else it documents is unchanged.
pub attach-documented :
    (error_ref : Json) (paths : List (String × PathItem)) (path method code : String)
    (item : PathItem) (op : Operation)
    → item_of path paths ≡ some item
    → method_of method item ≡ some op
    → any (λ m. m == method) methods ≡ true
    → (after : List (String × PathItem)) × (item' : PathItem) × (op' : Operation)
      × (attach_common_error_responses error_ref (some paths) ≡ some after)
      × (item_of path after ≡ some item')
      × (method_of method item' ≡ some op')
      × (property code (or_else op'.responses end)
          ≡ documented error_ref common_errors code (property code (or_else op.responses end)))
      × (op'.summary ≡ op.summary)
unfolding attach_common_error_responses document_operation
attach-documented error_ref paths path method code item op at_path at_method known = (
  document_paths error_ref paths,
  document_item error_ref item,
  document_operation error_ref op,
  refl,
  item_of-document_paths error_ref path paths item at_path,
  method_of-document_item error_ref method item op known at_method,
  property-document_errors error_ref code common_errors (or_else op.responses end),
  refl,
)
