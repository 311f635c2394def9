-- ===== src/Verification/Queue/Worker.antt =====
-- One round of the worker touches one server only.
use discovery_application.Base.{
  ℕ, ◌≡◌, ◌≢◌, ap, ◌∙◌, String, Option, inl, inr, some, on_some_ind, if_ind, [], ◌∷◌, In, str_eq,
  str_eq_iff, Bool-cases,
}
use discovery_application.Verification.Models.{McpServerRecord}
use discovery_application.Verification.Pipeline.{Providers}
use discovery_application.Verification.Registry.{Engine, Rows, update}
use discovery_application.Verification.Prefilter.{PrefilterResult}
use discovery_application.Verification.Queue.{
  Attempted, crashed, finished, WorkerState, reject_by, after_attempt, next_server, process,
  process_next_server,
}

pub update-In :
    (server_id : String) (change : McpServerRecord → McpServerRecord) (rows : Rows)
    (x : McpServerRecord)
    → In x rows
    → x.server_id ≢ server_id
    → In x (update server_id change rows)
unfolding update
update-In server_id change [] x i h = absurd i
update-In server_id change (r ∷ rows) x (inr i) h = inr (update-In server_id change rows x i h)
update-In server_id change (r ∷ rows) x (inl e) h =
    elim (Bool-cases (str_eq r.server_id server_id)) [
      | inl same ↦
          absurd (h (ap (λ (y : McpServerRecord). y.server_id) e ∙ (str_eq_iff _ _).0 same))
      | inr other ↦ inl (rw other e)
    ]

after_attempt-In :
    (providers : Providers) (a : Attempted) (r x : McpServerRecord) (done : ℕ) (s : WorkerState)
    → In x s.servers
    → x.server_id ≢ r.server_id
    → In x (after_attempt providers a r done s).servers
unfolding after_attempt
after_attempt-In providers (crashed message) r x done s i h =
    update-In r.server_id _ s.servers x i h
after_attempt-In providers (finished refined o) r x done s i h =
    update-In r.server_id _ s.servers x i h

module _ (db : Engine McpServerRecord) (providers : Providers)
    (prefilter : McpServerRecord → Option PrefilterResult)
    (attempt : McpServerRecord → Attempted) where
  process-In :
      (r x : McpServerRecord) (done : ℕ) (s : WorkerState)
      → In x s.servers
      → x.server_id ≢ r.server_id
      → In x (process db providers prefilter attempt r done s).servers
  unfolding process
  process-In r x done s i h =
      on_some_ind (λ (s' : WorkerState). In x s'.servers) (prefilter r)
        (λ p _.
          if_ind (λ (s' : WorkerState). In x s'.servers) p.passed
            (λ _. after_attempt-In providers (attempt r) r x done s i h)
            (λ _. update-In r.server_id (reject_by p) s.servers x i h))
        (λ _. i)

  -- A round of the worker that takes up a server leaves the row of every other server as it was,
  -- whatever the prefilter says and however the verification ends.
  pub process_next_server-In :
      (now done : ℕ) (s : WorkerState) (r x : McpServerRecord)
      → next_server db now s.servers ≡ some r
      → In x s.servers
      → x.server_id ≢ r.server_id
      → In x (process_next_server db providers prefilter attempt now done s).1.servers
  unfolding process_next_server
  process_next_server-In now done s r x taken i h = rw taken (process-In r x done s i h)
