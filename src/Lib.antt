-- ===== src/Lib.antt =====
-- goosed provisions machines over the network: pxe-stack boots them (DHCP, TFTP and HTTP), the API
-- keeps machines, runs and boot tokens, agents report facts over the bus, and the orchestrator
-- turns these reports into runs; the inventory keeps the facts and an audit of their changes, and
-- the bundler carries signed artifacts to an installation without a network. This library models
-- the parts that keep state and proves what makes them correct.
--
-- Parts and files:
--
-- Support, Support/*: Booleans, lists over the native numbers, maps as association lists, Go
-- strings as lists of code points, errors as values, methods as state passing.
-- Gorm, Gorm/*: gorm and PostgreSQL as an interface. A table has rows, and First, Create, Updates
-- and Delete, each of which may fail; a statement that fails changes no row. Begin, Commit and
-- Rollback are a second interface. Gorm/InMemory and Gorm/Transaction fill both by a list that
-- never fails.
-- Bus: pkg/bus/bus.go, Publish, over a connection that is an interface too; after a failed publish
-- the message may be stored or not.
-- Dhcp, Dhcp/*: services/pxe-stack/internal/dhcp. Dhcp/Ip has net.IP, cloneIP, incrementIP and
-- compareIP; Dhcp/Handler has the handler, NewServer, isAllocated, assign and release; Dhcp/Server
-- has handle and respond; Dhcp/Ip/Value reads an IPv4 address as a number; the rest are proofs.
-- Config, Config/*: services/pxe-stack/internal/config. Config/Env has getEnv, getEnvBool,
-- getEnvInt and parsePortList; Config/Load has Load, resolveDHCPInterface and interfaceByIP; the
-- rest are proofs.
-- Orchestrator, Orchestrator/*: services/orchestrator/sm.go. Orchestrator/Handlers has the
-- StateMachine, handleMachineEnrolled, handleAgentFacts, handleRunStarted, handleRunFinished and
-- isPostInstallDone; the rest are proofs.
-- Tokens, Tokens/*: services/api/token_store.go, token.go and token_model.go. Tokens/Store has
-- Issue, Active, MarkUsed and Rotate; the rest are proofs.
-- Api, Api/*: services/api/handlers_boot.go and handlers_tokens.go. Api/Boot has handleIPXE,
-- handleKickstart, handleUnattend and handleAgentTokenRefresh, fetchMachineByMAC and
-- fetchMachineByID of handlers_machines.go; Api/Machines has handleListMachines with what it
-- calls; the rest are proofs.
-- Artifacts, Artifacts/*: services/artifacts-gw/presign.go. Artifacts has handleGetPresign.
-- Inventory, Inventory/*: services/inventory. Inventory/Ingest has the rows and handleFact with
-- previousSnapshot, insertFact and insertAudit; Inventory/Diff has computeDiff; the rest are
-- proofs.
-- S3: pkg/s3/s3.go, PutObject and encodeSHA256.
-- PxeCommand, PxeCommand/*: services/pxe-stack/cmd/pxe/main.go. PxeCommand/Listen has portsToTry,
-- the loop over the ports and listenWithRetry; the rest are proofs.
-- Bundler, Bundler/*: services/bundler. Bundler/Manifest has the Manifest, Bundler/Signer the
-- Signer, Bundler/Urls parseS3URL, ensureHTTPS and inferKind, Bundler/Build has Build with
-- collectArtifacts and writeBundle, Bundler/Extract and Bundler/Import have Import with
-- validateArtifact and registerArtifact; Bundler/Codec and Bundler/Instances fill the interfaces
-- for the tests; the rest are proofs.
--
-- How they interact: the orchestrator and the token store are clients of Gorm, the orchestrator
-- also of Bus; the handlers of Api are clients of the token store; the DHCP handler starts from
-- what Load returned. Import is a client of S3 and of the API, whose answers are functions of all
-- that was sent before; what it sends is the trace of a run. assign and release run under the
-- mutex of the handler, and messages and requests are taken one after the other, so that a call is
-- one step from a state to a state; interleaved statements of two requests are not modelled. A
-- call takes place at a time that is an argument; where two calls of time.Now matter they are two
-- arguments. Identifiers and token values that uuid makes are arguments. The text form of an
-- address, the reply skeleton of the DHCP library, net.ParseIP, uuid.Parse, PresignGet and the
-- rendering of a template are parameters, and so are Ed25519, SHA-256, base64, bech32, YAML, the
-- archive reader and writer and the file system of the bundler. Contexts are not cancelled in the
-- bundler. Times are seconds or nanoseconds from some origin, as natural numbers; uuid.Nil is 0.
--
-- What the queries of handleListMachines for machines and facts return is an argument, in its
-- order; the table of runs is an interface, whose query fails where its order names a column that
-- the table lacks. The jsonb column of a fact, datatypes.JSONMap with its Value and Scan, is a
-- parameter without a law: a snapshot need not be read as it was written.
--
-- Fuel: the two loops of assign take fuel, one for each round, and none means that it ran out; the
-- number of addresses in the range and two more is enough, for a range that ends before
-- 255.255.255.255. The loop of listenWithRetry takes one for each attempt; 61 are enough, since 30
-- s are over after 60 waits of at least 500 ms.
--
-- Not modelled: sockets, JSON and HTTP encoding, the set-up of services, migrations, telemetry,
-- the templates and the user interface; the agents, the blueprints and the other handlers of the
-- API are not part of this library.
pub mod Support
pub mod Gorm
pub mod Bus
pub mod Dhcp
pub mod Config
pub mod Orchestrator
pub mod Tokens
pub mod Api
pub mod Artifacts
pub mod Inventory
pub mod S3
pub mod Bundler
pub mod PxeCommand
