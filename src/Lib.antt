-- ===== src/Lib.antt =====
-- provider-runpod: a Crossplane provider that manages RunPod Serverless Templates and Endpoints, and a
-- model router that serves the Endpoints it has verified.
--
-- The program's parts. The management client (internal/client/runpod) speaks RunPod's REST API: it
-- bounds and retries calls, validates each response, and tells a creation that failed from one that
-- may have happened. The Endpoint controller (internal/controller/endpoint) is the client that
-- crossplane's managed reconciler calls, one handler at a time: it reads a Template and EndpointChecks
-- from the API server, calls the management client, and records what it saw in the object's status
-- and annotations, which the next pass and the other processes rely on. The Template controller
-- (internal/controller/template) does the same for Templates, and the janitor
-- (internal/controller/janitor) ends lifetimes in the order checks, Endpoint, Template. The
-- EndpointCheck controller (internal/controller/endpointcheck) lets the inference client
-- (internal/inference) verify an Endpoint over its inference URL, records the result, and decides when
-- the Endpoint may be routed to. The model router (internal/router) serves one such Endpoint: it admits
-- a route, lets requests lease it, and checks each chat request before it forwards it. Identifiers
-- (internal/identifier) and credential purposes (internal/credentials) are shared by all processes.
--
-- Which file models which part:
--   Base             names from the libraries, and what Go's values are here: `Result` for a value or an
--                    error, integers over the native numbers, maps as association lists, nil pointers
--                    as `none`
--   Float, Json      float64 with the division that makes a cost ceiling, and decoded JSON
--   Identifier       internal/identifier/runpod.go, and safeID of internal/client/runpod/client.go
--   Credentials      internal/credentials/purpose.go
--   Client.Types     internal/client/runpod/types.go, the wire records
--   Client.Transport internal/client/runpod/client.go, doJSON: `judge` is the body of its loop after the
--                    request, `attempts` the loop, `backoff` and `request_id` their namesakes
--   Client.Validation, Client.Methods
--                    the rest of client.go, a function for each method; `Server` is what the network
--                    answers to each attempt of each request
--   Apis             apis/serverless/v1alpha1, apis/verification/v1alpha1: the objects, with the tests on
--                    evidence; Apis.Crossplane is what the program takes from crossplane-runtime, with its
--                    documented behaviour as laws, and Apis.Reader the answers of the API server
--   Managed          what internal/controller/endpoint/endpoint.go and internal/controller/template/
--                    template.go share: the annotations that mark an ambiguous create and a bound ID
--   Endpoint.Settings, Endpoint.Matching, Endpoint.Observation, Endpoint.Binding, Endpoint.Handlers
--                    internal/controller/endpoint/endpoint.go: names and inputs, the tests of an external
--                    Endpoint, setObservation, resolveTemplate and bindExternalID, and the handlers
--                    Observe, Create, Update and Delete. A handler is a function to its result, the object
--                    as it leaves it and the calls that it made, in order
--   Template.Settings, Template.Handlers
--                    internal/controller/template/template.go, in the same form
--   Janitor          internal/controller/janitor/janitor.go: `reconcile_endpoint` and
--                    `reconcile_template` are the two Reconcile methods, each with the writes that it
--                    makes; what the API server answers to a write is an argument
--   Management       internal/controller/management/connect.go, Connect up to the key that the client is
--                    built from
--   Inference        internal/inference/client.go: the guards of New, Verify, CheckHealth and what `do`
--                    makes of a response. A request is its path, and whether it is the POST of the prompt
--   Verification     internal/controller/endpointcheck/endpointcheck.go, its decisions: observation,
--                    fullVerificationDue, verificationAdmitted, nextPoll; Verification.Resolve is
--                    resolveEndpoint, Verification.Reconcile Reconcile with its failure paths: a pass is
--                    its result and the writes and probes that it made, in order
--   Request          internal/router/request.go, the validation of a chat request, with what it takes out
--                    of the request as a result: Request.Fields the tests of single fields,
--                    Request.Schema validateJSONSchema, Request.Arguments the strict decoding of a tool
--                    call's arguments, Request.Tools and Request.Messages the rest; Request.Secrets is
--                    containsSecretKey of internal/router/router.go
--   Router           internal/router/router.go: Router.Eligible has the tests of Refresh on a check, its
--                    Endpoint and its token, Router.Refresh is Refresh with the three reads of the API
--                    server as arguments, Router.Lease replace, acquire and the inference slot as the
--                    steps of goroutines under the mutex, Router.Proxy ServeHTTP and proxyChat, and
--                    Router.Copy copyBoundedAndFlush
--   Tests            the theorems at concrete inputs
--
-- Bounds and simplifications. A call has four attempts, and the loop's fuel is that number. A time is its
-- nanoseconds since the year 1, and a handler reads the clock once where the source may read it again
-- within the pass. Lifetimes, intervals and generations are natural numbers, as the CRDs demand. A
-- quotient by 1000 is searched down from 62 binary places, which leaves 53 significant bits for every
-- int32. Names and UIDs are ASCII, so a cut at a byte and a change of case need no Unicode. The number
-- of workers in a response of at most 1 MiB fits an int32. A handler makes each call at most once, so a
-- `Service` answers each call with one value. The text of an error is shortened where no code reads it.
-- A recursion that the source bounds by its depth descends by the levels that are left, and a loop over
-- tokens has one round more than there are tokens. The members of a decoded object are visited in their
-- order, where Go's order is open.
-- The inputs that are sent always encode, and so the error of json.Marshal is left out.
--
-- Not modelled: New, the options and the construction of the HTTP clients, Run of the model router with its
-- ticker and snapshot, and the custom JSON decoding of the wire types, where net/http, encoding/json and
-- the clock are parameters; registration with the manager, processes and generated code, since they are
-- glue. The text of errors and of conditions is left out, as no code reads it.
pub mod Base
pub mod Identifier
pub mod Credentials
pub mod Float
pub mod Json
pub mod Request
pub mod Client
pub mod Apis
pub mod Managed
pub mod Endpoint
pub mod Template
pub mod Janitor
pub mod Management
pub mod Inference
pub mod Verification
pub mod Router
pub mod Tests
