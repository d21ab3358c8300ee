-- ===== src/Magenta.antt =====
-- What the sources name of the Magenta headers, which are not part of the repository: status codes,
-- signals and handles. MX_OK is the one zero status and every MX_ERR_ is negative; the values
-- themselves are not used by the sources, so the codes they name are constructors.
use mtl.Base.{ℕ, Bool, true, false}

pub data Error : Type 0 where
  bad_state bad_handle canceled timed_out peer_closed should_wait : Error
  other : ℕ → Error

pub data Status : Type 0 where
  ok : Status
  failed : Error → Status
  informative : ℕ → Status

-- status == MX_OK
abbrev pub is_ok : Status → Bool
is_ok ok = true
is_ok (failed e) = false
is_ok (informative n) = false

-- status < 0
abbrev pub is_negative : Status → Bool
is_negative ok = false
is_negative (failed e) = true
is_negative (informative n) = false

abbrev pub is_bad_state : Status → Bool
is_bad_state (failed bad_state) = true
is_bad_state _ = false

abbrev pub is_bad_handle : Status → Bool
is_bad_handle (failed bad_handle) = true
is_bad_handle _ = false

abbrev pub is_canceled : Status → Bool
is_canceled (failed canceled) = true
is_canceled _ = false

abbrev pub is_peer_closed : Status → Bool
is_peer_closed (failed peer_closed) = true
is_peer_closed _ = false

-- The bits of mx_signals_t that the sources test or ask for.
pub record Signals : Type 0 where
  pub readable : Bool
  pub writable : Bool
  pub peer_closed : Bool
  pub read_disabled : Bool

abbrev pub signal_none : Signals
signal_none = record {
  readable = false;
  writable = false;
  peer_closed = false;
  read_disabled = false;
}

-- MX_HANDLE_INVALID
abbrev pub handle_invalid : ℕ
handle_invalid = 0

abbrev pub is_should_wait : Status → Bool
is_should_wait (failed should_wait) = true
is_should_wait _ = false
