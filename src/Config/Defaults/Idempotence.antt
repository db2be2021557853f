-- ===== src/Config/Defaults/Idempotence.antt =====
-- Applying the defaults a second time.
use open_mcp_chain.Prelude.{
  ◌≡◌, refl, true, inl, inr, List, [], ◌∷◌, Text, txt, is_empty, trim_space, is_space, arith,
  Bool-cases,
}
use open_mcp_chain.Prelude.Int.{ℤ, pos, leb_ℤ}
use open_mcp_chain.Config.{
  TaskStoreConfig, AuthStoreConfig, TaskQueueConfig, LoggingConfig, AuditConfig, AuthConfig,
  LlmConfig, Config,
}
use open_mcp_chain.Config.Paths.{is_abs, join, join-is_abs}
use open_mcp_chain.Config.Defaults.{
  or_text, or_positive, or_zero, or_disabled, resolved, resolved_or, task_store_defaults,
  auth_store_defaults, llm_defaults, or_stdout, logging_defaults, metrics_defaults, audit_defaults,
  task_queue_defaults, auth_defaults, apply_config_defaults,
}

or_text_idem : (s d : Text) → or_text (or_text s d) d ≡ or_text s d
unfolding or_text
or_text_idem [] [] = refl
or_text_idem [] (c ∷ d) = refl
or_text_idem (c ∷ s) d = refl

or_positive_idem : (n d : ℤ) → or_positive (or_positive n d) d ≡ or_positive n d
unfolding or_positive
or_positive_idem n d = elim (Bool-cases (leb_ℤ n (pos 0))) [
  | inl small ↦ rw small (ground arith)
  | inr large ↦ rw (large, large)
]

or_zero_idem : (n : ℤ) → or_zero (or_zero n) ≡ or_zero n
unfolding or_zero
or_zero_idem n = ground arith

-- An absolute path, or the empty one, is left as it is.
resolved_idem :
    (base s : Text) → is_abs base ≡ true → resolved base (resolved base s) ≡ resolved base s
unfolding resolved
resolved_idem base s h = elim (Bool-cases (is_abs s)) [
  | inl absolute ↦ ground (arith, absolute)
  | inr relative ↦ ground (arith, relative, join-is_abs base s h)
]

resolved_or_idem :
    (base s d : Text)
    → is_abs base ≡ true
    → is_abs d ≡ true
    → resolved_or base (resolved_or base s d) d ≡ resolved_or base s d
unfolding resolved_or
resolved_or_idem base s d h hd = elim (Bool-cases (is_abs s)) [
  | inl absolute ↦ ground (arith, absolute, hd)
  | inr relative ↦ ground (arith, relative, join-is_abs base s h, hd)
]

or_stdout_idem : (outputs : List Text) → or_stdout (or_stdout outputs) ≡ or_stdout outputs
or_stdout_idem [] = refl
or_stdout_idem (o ∷ outputs) = refl

task_store_defaults_idem :
    (c : TaskStoreConfig) → task_store_defaults (task_store_defaults c) ≡ task_store_defaults c
unfolding task_store_defaults
task_store_defaults_idem c = simp (or_text_idem, or_positive_idem, or_zero_idem)

auth_store_defaults_idem :
    (driver : Text) (c : AuthStoreConfig)
    → auth_store_defaults driver (auth_store_defaults driver c) ≡ auth_store_defaults driver c
unfolding auth_store_defaults
auth_store_defaults_idem driver c = simp (or_text_idem, or_positive_idem, or_zero_idem)

llm_defaults_idem :
    (base : Text) (c : LlmConfig)
    → is_abs base ≡ true
    → llm_defaults base (llm_defaults base c) ≡ llm_defaults base c
unfolding llm_defaults
llm_defaults_idem base c h =
    simp (or_text_idem, or_positive_idem, resolved_or_idem base c.python.working_dir base h h)

logging_defaults_idem :
    (c : LoggingConfig) → logging_defaults (logging_defaults c) ≡ logging_defaults c
unfolding logging_defaults
logging_defaults_idem c = simp (or_text_idem, or_stdout_idem c.outputs)

audit_defaults_idem :
    (base data_dir : Text) (c : AuditConfig)
    → is_abs base ≡ true
    → is_abs data_dir ≡ true
    → audit_defaults base data_dir (audit_defaults base data_dir c) ≡ audit_defaults base data_dir c
unfolding audit_defaults
audit_defaults_idem base data_dir c h hd = simp (
  or_positive_idem,
  resolved_or_idem base c.file (join data_dir (txt "audit.log")) h
      (join-is_abs data_dir (txt "audit.log") hd),
)

task_queue_defaults_idem :
    (c : TaskQueueConfig) → task_queue_defaults (task_queue_defaults c) ≡ task_queue_defaults c
unfolding task_queue_defaults
task_queue_defaults_idem c = simp (or_text_idem, or_positive_idem)

or_disabled_idem : (s : Text) → or_disabled (or_disabled s) ≡ or_disabled s
unfolding or_disabled trim_space is_space
or_disabled_idem s = elim (Bool-cases (is_empty (trim_space s))) [
  | inl blank ↦ rw blank refl
  | inr filled ↦ rw (filled, filled)
]

auth_defaults_idem : (c : AuthConfig) → auth_defaults (auth_defaults c) ≡ auth_defaults c
unfolding auth_defaults
auth_defaults_idem c = simp (or_text_idem, or_positive_idem, or_disabled_idem)

data_dir-is_abs :
    (base s : Text)
    → is_abs base ≡ true
    → is_abs (resolved_or base s (join base (txt "data"))) ≡ true
unfolding resolved_or
data_dir-is_abs base s h = elim (Bool-cases (is_abs s)) [
  | inl absolute ↦ ground (arith, absolute, join-is_abs base (txt "data") h)
  | inr relative ↦ ground (arith, relative, join-is_abs base s h, join-is_abs base (txt "data") h)
]

-- With an absolute base directory, applying the defaults a second time changes nothing; every path is resolved
-- once.
pub apply_config_defaults_idem :
    (base : Text) (c : Config)
    → is_abs base ≡ true
    → apply_config_defaults base (apply_config_defaults base c) ≡ apply_config_defaults base c
unfolding apply_config_defaults metrics_defaults
apply_config_defaults_idem base c h =
    let data_dir = resolved_or base c.data_dir (join base (txt "data")) in
    let driver = (task_store_defaults c.task_store).driver in
    simp (
      or_text_idem,
      or_positive_idem,
      resolved_idem base c.web3.chain_config h,
      resolved_idem base c.knowledge.source h,
      resolved_or_idem base c.data_dir (join base (txt "data")) h (join-is_abs base (txt "data") h),
      task_store_defaults_idem,
      auth_store_defaults_idem driver c.auth_store,
      llm_defaults_idem base c.llm h,
      logging_defaults_idem,
      audit_defaults_idem base data_dir c.audit h (data_dir-is_abs base c.data_dir h),
      task_queue_defaults_idem,
      auth_defaults_idem,
    )
