-- ===== src/GetPage/Failure.antt =====
-- What the receiving page makes of an error (src/get/failure.ts). An error is told by what the code reads
-- of it.
use wildbloom.Prelude.{
  ℕ, ◌≡◌, Bool, true, false, not, ◌||◌, ◌&&◌, ◌==◌, Option, none, some, if◌then◌else◌, ◌↔◌, arith,
}

-- The `kind` of a ForegatherTransportError.
pub data TransportKind : Type 0 where
  expired_kind cancelled_kind http_kind other_kind : TransportKind

-- The `name` of a DOMException.
pub data DomName : Type 0 where
  timeout_error network_error other_name : DomName

-- An error in the pairing: a transport error with its kind and its status if that is a number, a TypeError,
-- a DOMException, or anything else.
pub data PairingError : Type 0 where
  transport : TransportKind → Option ℕ → PairingError
  type_error : PairingError
  dom_exception : DomName → PairingError
  other_error : PairingError

-- `PairingFailure`.
pub data PairingFailure : Type 0 where
  claim_refused network wrong_words expired cancelled : PairingFailure

-- The statuses of a refused claim.
abbrev pub is_refusal : Option ℕ → Bool
is_refusal none = false
is_refusal (some status) = (status == 403) || (status == 404) || (status == 409) || (status == 410)

-- `classifyPairingFailure`.
pub classify_pairing_failure : PairingError → Bool → PairingFailure
classify_pairing_failure (transport expired_kind status) claimed = expired
classify_pairing_failure (transport cancelled_kind status) claimed = cancelled
classify_pairing_failure (transport http_kind status) claimed =
    if not claimed && is_refusal status then claim_refused else network
classify_pairing_failure (transport other_kind status) claimed = network
classify_pairing_failure type_error claimed = network
classify_pairing_failure (dom_exception timeout_error) claimed = network
classify_pairing_failure (dom_exception network_error) claimed = network
classify_pairing_failure (dom_exception other_name) claimed =
    if claimed then wrong_words else network
classify_pairing_failure other_error claimed = if claimed then wrong_words else network

-- A BlossomRetrievalError, by whether its kind is `integrity` and by its status, or anything else.
pub data DownloadError : Type 0 where
  retrieval : Bool → Option ℕ → DownloadError
  other_download_error : DownloadError

pub data Stage : Type 0 where
  fetch_stage open_stage : Stage

-- `DownloadFailure`.
pub data DownloadFailure : Type 0 where
  missing unavailable damaged : DownloadFailure

abbrev pub is_gone : Option ℕ → Bool
is_gone none = false
is_gone (some status) = (status == 404) || (status == 410)

-- `classifyDownloadFailure`.
pub classify_download_failure : DownloadError → Stage → DownloadFailure
classify_download_failure error open_stage = damaged
classify_download_failure (retrieval integrity status) fetch_stage =
    if integrity then damaged else if is_gone status then missing else unavailable
classify_download_failure other_download_error fetch_stage = unavailable

-- Whether the error is one of the network or of the transport.
abbrev pub is_of_network : PairingError → Bool
is_of_network (transport kind status) = true
is_of_network type_error = true
is_of_network (dom_exception timeout_error) = true
is_of_network (dom_exception network_error) = true
is_of_network (dom_exception other_name) = false
is_of_network other_error = false

-- Whether the transport answered with the status of a refusal.
abbrev pub is_http_refusal : PairingError → Bool
is_http_refusal (transport http_kind status) = is_refusal status
is_http_refusal _ = false

-- The words are called wrong exactly if the claim had been made and the error is not one of the
-- network; and a claim is called refused exactly if it had not been made, and the transport
-- answered with the status of a refusal.
pub pairing_failure_iff :
    (error : PairingError) (claimed : Bool)
    → ((classify_pairing_failure error claimed ≡ wrong_words)
        ↔ ((claimed && not (is_of_network error)) ≡ true))
      × ((classify_pairing_failure error claimed ≡ claim_refused)
          ↔ ((not claimed && is_http_refusal error) ≡ true))
unfolding classify_pairing_failure
pairing_failure_iff error claimed = ground arith
