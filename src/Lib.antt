-- ===== src/Lib.antt =====
-- skret keeps secrets in one provider (AWS, Azure, GCP, OCI, a local file) and carries them to
-- targets (GitHub, GitLab, Cloudflare, Kubernetes, Terraform, .env files), to processes and to
-- templates. Modelled here are the parts whose correctness is more than traffic: the journal that
-- a sync writes so that a value is never reported as delivered before it is acknowledged and
-- verified, the signed manifests under which a supervisor hands secrets to containers, the local
-- file of secrets, the configuration, and the text codecs that values pass through. Strings are
-- lists of bytes, maps are association lists (a loop over a Go map runs in the order of the list,
-- whatever that is), and fallible code returns an Option or a data type of results.
--
--   Base        the shared names: Boolean tests, lists, Go's string functions, maps
--   Provider    internal/provider/provider.go: Secret and Capability (`valid_capability` is
--               `Capability.Valid`). Provider.Oci is internal/provider/oci/names.go:
--               `secret_name_for` is `secretNameFor`, `secret_key_for` is `secretKeyFor`.
--               Provider.Local is internal/provider/local/local.go over one file, of which Sealing
--               and Durable speak; the YAML library, the envelopes of internal/keystore and the
--               answers of the file system are parameters
--   Config      internal/config: the data and checks of schema.go (`validate_config` is
--               `Config.Validate`); Keys is `ResolveKey`, Paths is `ResolvePath`, of which Recovered
--               speaks, and Resolve has `Resolve` and `EphemeralConfig`, of which Served and
--               Ephemeral speak. `os.Getenv` is a parameter,
--               and so is the test on a webhook that `url.Parse` decides
--   Dotenv      internal/dotenv/dotenv.go: `encode` is `Encode`, `decode` is `Decode`
--   Envelope    internal/syncer/envelope_client.go: `build_signed_envelope` is
--               `BuildSignedEnvelope`, `verify_signed_envelope` is `VerifySignedEnvelope`.
--               Envelope.Replay is internal/syncer/envelope_replay.go: `consume` is `Consume`,
--               `verify_and_consume` is `VerifyAndConsumeSignedEnvelope` over any store
--   Launch      internal/secretlaunch: the signed manifest under which services start. Fields and
--               Decimal have the tests of single fields and errors.go; Data and Authority have
--               manifest.go's data and `Validate` (`validate`), and Rules, Valid, Services and Accepted
--               what it lets through; Json is `validateJSONObject` and its scanner, with the grammar of
--               compact texts in Texts; Trust and Signed
--               have `VerifyManifest`, `VerifySignedManifest` and `SignManifest`; Renewal is renew.go
--               and `refreshManifest` of supervisor.go; Model has `ValidateManifestModel` of
--               runtime.go; Order is `OrderServices` of supervisor.go. Labels
--               has runtime.go's labels, and Supervisor and Reconcile have `Reconcile` and
--               `ScavengeOrphans` of supervisor.go, whose calls Passes, Steps, Guarded, Pass and
--               Reached speak of
--   Ref         internal/ref/ref.go: `resolve` is `Resolve`, `expand` is `expand`. `scan` is its walk
--               over the bytes and `splice` its loop over what the walk finds. Tokens says what a text
--               becomes, byte by byte, and Spec and Errors compare `resolve` with it
--   Collision   the search for two keys under one name that internal/exec/exec.go,
--               internal/syncer/syncer.go and internal/syncer/dotenv.go make alike
--   Exec        internal/exec/exec.go: `build_env` is `BuildEnv`, `key_to_env_name` is
--               `KeyToEnvName`, `detect_collisions` is `DetectEnvNameCollisions`
--   SyncState   internal/syncer/state.go: the journal of one target. Metadata has `validate`,
--               `validatePersisted` and the promotion; Begin has `beginOperation` and
--               `RequiresReconciliation`; Record has `RecordKeySuccess` and `RecordSuccess`'s loop;
--               Reconcile has `RecordKeyNeedsReconciliation`, `RecordNeedsReconciliation` and
--               `ApproveOwnerRiskReconciliation`; Finalize has `FinalizeOperation` and
--               `RecordSuccess`; Verify has `RecordOperationVerification`; Persist has
--               `validatePersistedOperationMetadata`, `LoadSyncState`, `SaveSyncState` without the
--               file, `FilterUnchanged` and `Update`; Call has the methods as calls of one type.
--               Invariant has what every method preserves, with one file for each kind of change
--   Target      internal/syncer/syncer.go and `SecretName` of internal/syncer/github.go:
--               `filter_absent` is `FilterAbsent`, `validate_mapping` is
--               `ValidateDestinationMapping`. Target.Dotenv is internal/syncer/dotenv.go and
--               internal/importer/dotenv.go: `sync` is `Sync`, `import_text` is `Import`
--   Retry       internal/syncer/retry.go: `do_with_retry` is `doWithRetry`, `do_mutation` is
--               `doMutation`, over any client
--   Differ      internal/differ/differ.go: `diff` is `Diff`, `has_drift` is `HasDrift`
--
-- A method of the journal takes the state and returns it with the error, since some change it and
-- fail nevertheless. The keyed hash of a value is a parameter, and so is whether its key is
-- ephemeral. Loops are recursion on the list that they run over; the trimming of white space has one
-- round of fuel for each byte, and each round takes a byte at least or stops. `resolve` descends on
-- fuel: a chain of more than `MaxDepth` names ends it, so two rounds more than that are enough.
-- The scanner of JSON texts gets twice the length of the text and 2, since each call reads a byte or
-- goes from an element to its value; `visit` of `OrderServices` gets one more than the number of
-- services, since each call below another marks a service. The loop of `ResolvePath` has a round for
-- each byte, since each round but the last takes a slash.
--
--
-- SHA-256, Ed25519, base64 and the JSON texts of data are parameters, of which a theorem names what it
-- relies on.
--
-- The environment and the names of a target take `strings.ToUpper` as a parameter.
--
-- Not modelled: the traffic with providers and targets, the command line, prompts and printing, the
-- file system and its locks, JSON and YAML texts, cryptography, and randomness.
pub mod Base
pub mod Collision
pub mod Config
pub mod Differ
pub mod Dotenv
pub mod Envelope
pub mod Exec
pub mod Launch
pub mod Provider
pub mod Ref
pub mod Retry
pub mod SyncState
pub mod Target
