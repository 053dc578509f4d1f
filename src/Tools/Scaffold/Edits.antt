-- ===== src/Tools/Scaffold/Edits.antt =====
-- tools/scaffold-service.mjs: the anchored edits, and the order in which it checks and writes. Reading
-- the files is an argument. The contents of the generated files and the edits of the two JSON files are
-- not modelled.
use nestjs_microservice_mono.Prelude.{
  ℕ, String, ◌≡◌, refl, Bool, not, Option, none, some, List, [], ◌∷◌, ◌++◌, nat_eq, ◌==◌,
  if◌then◌else◌,
}
use nestjs_microservice_mono.Words.{codes}
use nestjs_microservice_mono.Tools.Scaffold.{Text, is_kebab, camel, const_name, derived_queue}

-- `src.replace(anchor, replacement)` for a text that includes the anchor.
strip_prefix : Text → Text → Option Text
strip_prefix [] s = some s
strip_prefix (p ∷ ps) [] = none
strip_prefix (p ∷ ps) (c ∷ s) = let rest = strip_prefix ps s in if nat_eq p c then rest else none

replaced_here : ℕ → Text → Option Text → Option Text → Option Text
replaced_here c replacement (some rest) later = some (replacement ++ rest)
replaced_here c replacement none none = none
replaced_here c replacement none (some later) = some (c ∷ later)

unfoldable pub replace_first : Text → Text → Text → Option Text
unfolding strip_prefix replaced_here
replace_first [] replacement [] = some replacement
replace_first (a ∷ anchor) replacement [] = none
replace_first anchor replacement (c ∷ s) =
    replaced_here c replacement (strip_prefix anchor (c ∷ s)) (replace_first anchor replacement s)

record Edit : Type 0 where
  path : String
  anchor : Text
  replacement : Text

-- `edited.get(file) ?? readFileSync(file)`
abbrev content_of : (String → Text) → String → List (String × Text) → Text
content_of read path [] = read path
content_of read path ((p, t) ∷ edited) = if p == path then t else content_of read path edited

-- `edited.set(file, …)`
set_content : String → Text → List (String × Text) → List (String × Text)
set_content path t [] = (path, t) ∷ []
set_content path t ((p, u) ∷ edited) =
    if p == path then (p, t) ∷ edited else (p, u) ∷ set_content path t edited

-- `planEdit`; `none` is its `process.exit(1)`.
plan_edit : (String → Text) → Edit → List (String × Text) → Option (List (String × Text))
unfolding replace_first set_content
plan_edit read e edited =
    elim (replace_first e.anchor e.replacement (content_of read e.path edited)) [
      | none ↦ none
      | some t ↦ some (set_content e.path t edited)
    ]

plan_edits : (String → Text) → List Edit → List (String × Text) → Option (List (String × Text))
unfolding plan_edit
plan_edits read [] edited = some edited
plan_edits read (e ∷ es) edited = elim (plan_edit read e edited) [
  | none ↦ none
  | some next ↦ plan_edits read es next
]

abbrev flatten : List Text → Text
flatten [] = []
flatten (t ∷ ts) = t ++ flatten ts

-- A file's edit, with the parts of the anchor and of the replacement.
edit : String → String → List Text → Edit
edit path anchor parts = record { path = path; anchor = codes anchor; replacement = flatten parts }

abbrev queue_constants : String
queue_constants = "libs/common/src/constants/derived_queue.constants.ts"

abbrev messaging_module : String
messaging_module = "libs/messaging/src/messaging.module.ts"

abbrev rpc_client : String
rpc_client = "libs/common/src/services/rpc-client.service.ts"

abbrev deploy_yml : String
deploy_yml = ".github/workflows/deploy.yml"

-- The edits of step 3 and step 4.
messaging_edits : Text → List Edit
unfolding edit const_name derived_queue
messaging_edits kebab =
    edit queue_constants "export const QUEUES = {\n  USER_SERVICE: 'user_service_queue'," (
      codes "export const QUEUES = {\n  USER_SERVICE: 'user_service_queue',\n  "
      ∷ const_name kebab
      ∷ codes ": '"
      ∷ derived_queue kebab
      ∷ codes "',"
      ∷ [])
    ∷ edit queue_constants "export const SERVICE_TOKENS = {\n  USER_SERVICE: 'USER_SERVICE'," (
        codes "export const SERVICE_TOKENS = {\n  USER_SERVICE: 'USER_SERVICE',\n  "
        ∷ const_name kebab
        ∷ codes ": '"
        ∷ const_name kebab
        ∷ codes "',"
        ∷ [])
    ∷ edit messaging_module "const ALL_SERVICES: ServiceKey[] = ['USER_SERVICE'];" (
        codes "const ALL_SERVICES: ServiceKey[] = ['USER_SERVICE', '"
        ∷ const_name kebab
        ∷ codes "'];"
        ∷ [])
    ∷ edit messaging_module "  [SERVICE_TOKENS.USER_SERVICE]: QUEUES.USER_SERVICE," (
        codes "  [SERVICE_TOKENS.USER_SERVICE]: QUEUES.USER_SERVICE,\n  [SERVICE_TOKENS."
        ∷ const_name kebab
        ∷ codes "]: QUEUES."
        ∷ const_name kebab
        ∷ codes ","
        ∷ [])
    ∷ []

-- The edits of step 5.
client_edits : Text → List Edit
unfolding edit camel const_name
client_edits kebab =
    edit rpc_client "export type ServiceName = 'user';"
      (codes "export type ServiceName = 'user' | '" ∷ camel kebab ∷ codes "';" ∷ [])
    ∷ edit rpc_client
        "    @Inject(SERVICE_TOKENS.USER_SERVICE)\n    private readonly userClient: ClientProxy,"
        (codes
            "    @Inject(SERVICE_TOKENS.USER_SERVICE)\n    private readonly userClient: ClientProxy,\n    @Inject(SERVICE_TOKENS."
          ∷ const_name kebab
          ∷ codes ")\n    private readonly "
          ∷ camel kebab
          ∷ codes "Client: ClientProxy,"
          ∷ [])
    ∷ edit rpc_client
        "    return this.send<T>('user', this.userClient, pattern, payload, timeoutMs);\n  }"
        (codes
            "    return this.send<T>('user', this.userClient, pattern, payload, timeoutMs);\n  }\n\n  "
          ∷ camel kebab
          ∷ codes
              "<T = unknown>(\n    pattern: string,\n    payload: object = {},\n    timeoutMs?: number,\n  ): Promise<T> {\n    return this.send<T>(\n      '"
          ∷ camel kebab
          ∷ codes "',\n      this."
          ∷ camel kebab
          ∷ codes "Client,\n      pattern,\n      payload,\n      timeoutMs,\n    );\n  }"
          ∷ [])
    ∷ edit rpc_client "    if (service === 'user') return this.userClient;" (
        codes "    if (service === 'user') return this.userClient;\n    if (service === '"
        ∷ camel kebab
        ∷ codes "') return this."
        ∷ camel kebab
        ∷ codes "Client;"
        ∷ [])
    ∷ []

-- The edits of step 7 and step 8.
deploy_edits : Text → List Edit
unfolding edit
deploy_edits kebab =
    edit "docker-compose.yml" "\nvolumes:\n  mongo-data:" (
      codes "\n  "
      ∷ kebab
      ∷ codes
          ":\n    build:\n      context: .\n      dockerfile: Dockerfile\n      args:\n        SERVICE: "
      ∷ kebab
      ∷ codes "\n        RELEASE_TAG: ${RELEASE_TAG:-dev-local}\n    container_name: app-"
      ∷ kebab
      ∷ codes
          "\n    restart: unless-stopped\n    env_file: .env\n    environment:\n      MONGO: mongodb://mongodb:27017\n      RABBITMQ_URL: amqp://${RABBITMQ_USER:-guest}:${RABBITMQ_PASS:-guest}@rabbitmq:5672\n    depends_on:\n      mongodb:\n        condition: service_healthy\n      rabbitmq:\n        condition: service_healthy\n\nvolumes:\n  mongo-data:"
      ∷ [])
    ∷ edit deploy_yml "          - gateway\n          - user"
        (codes "          - gateway\n          - user\n          - " ∷ kebab ∷ [])
    ∷ edit deploy_yml "  ALL_SERVICES: gateway,user"
        (codes "  ALL_SERVICES: gateway,user," ∷ kebab ∷ [])
    ∷ []

all_edits : Text → List Edit
unfolding messaging_edits client_edits deploy_edits
all_edits kebab = messaging_edits kebab ++ (client_edits kebab ++ deploy_edits kebab)

-- The run up to the writes: `none` is an exit with 1 before any of them, and otherwise the edited
-- files are written as they are here.
scaffold :
    (String → Text) → (Text → Bool) → (Text → Bool) → Option Text → Option (List (String × Text))
unfolding is_kebab plan_edits all_edits
scaffold read app_exists project_exists none = none
scaffold read app_exists project_exists (some name) =
    if not (is_kebab name)
    then none
    else if app_exists name
    then none
    else elim (plan_edits read (all_edits name) []) [
      | none ↦ none
      | some edited ↦ if project_exists name then none else some edited
    ]

-- The line of messaging.module.ts that a first run has edited has the anchor no more.
abbrev services_line : Text
services_line = codes "const ALL_SERVICES: ServiceKey[] = ['USER_SERVICE'];"

abbrev services_edit : Text → Text → Option Text
services_edit kebab = replace_first services_line (
    flatten (
      codes "const ALL_SERVICES: ServiceKey[] = ['USER_SERVICE', '"
      ∷ const_name kebab
      ∷ codes "'];"
      ∷ []))

abbrev edit_again : Text → Option Text → Option Text
edit_again kebab none = none
edit_again kebab (some t) = services_edit kebab t

second_run_test : edit_again (codes "mail") (services_edit (codes "billing") services_line) ≡ none
unfolding replace_first const_name
second_run_test = refl
