-- ===== src/Soap/Parser/Kinds.antt =====
-- What kind of message `parse` returns, and whose connection it names.
use nsi_aggregator_proxy.Common.Dict
use nsi_aggregator_proxy.Common.Dict.{Dict}
use nsi_aggregator_proxy.Common.{
  if◌then◌else◌, Bool-cases, ◌==◌, String, ◌≡◌, refl, inl, inr, Option, none, some, [], ◌∷◌, arith,
  eq_iff,
}
use nsi_aggregator_proxy.Runtime.{Parsed, value}
use nsi_aggregator_proxy.Soap.Etree.{◌>>=◌, plain, Etree, local_name, require}
use nsi_aggregator_proxy.Soap.Etree.Laws.{
  >>=-value, Ensures, Ensures-bind, Ensures-value, require-eq,
}
use nsi_aggregator_proxy.Soap.Messages.{ServiceException, FailedResult, NsiMessage, type_name}
use nsi_aggregator_proxy.Soap.Parser.{
  body_operation, parse_reserve_response, parse_reserve_confirmed, parse_failed,
  parse_reserve_timeout, parse_confirmed, parse_change, parse_event, parse_recursive,
  parse_rejection, parse_operation, parse,
}
use nsi_aggregator_proxy.Soap.Parser.Exceptions.{parse_service_exception}

-- The class of each operation, as the module's docstring lists them.
abbrev pub operation_types : Dict String
operation_types =
    ("reserveResponse", "ReserveResponse")
    ∷ ("reserveConfirmed", "ReserveConfirmed")
    ∷ ("reserveFailed", "ReserveFailed")
    ∷ ("reserveTimeout", "ReserveTimeout")
    ∷ ("reserveCommitFailed", "ReserveCommitFailed")
    ∷ ("reserveCommitConfirmed", "ReserveCommitConfirmed")
    ∷ ("provisionConfirmed", "ProvisionConfirmed")
    ∷ ("dataPlaneStateChange", "DataPlaneStateChange")
    ∷ ("errorEvent", "ErrorEvent")
    ∷ ("releaseConfirmed", "ReleaseConfirmed")
    ∷ ("terminateConfirmed", "TerminateConfirmed")
    ∷ ("acknowledgment", "Acknowledgment")
    ∷ ("queryRecursiveConfirmed", "QueryRecursiveResult")
    ∷ ("Fault", "SoapFault")
    ∷ []

-- The connection that a message names, for the messages that name one.
abbrev pub connection_of : NsiMessage → Option String
connection_of (NsiMessage.reserve_response r) = some r.connection_id
connection_of NsiMessage.acknowledgment = none
connection_of (NsiMessage.reserve_confirmed r) = some r.connection_id
connection_of (NsiMessage.reserve_failed r) = some r.connection_id
connection_of (NsiMessage.reserve_timeout r) = some r.connection_id
connection_of (NsiMessage.reserve_commit_failed r) = some r.connection_id
connection_of (NsiMessage.reserve_commit_confirmed id) = some id
connection_of (NsiMessage.provision_confirmed id) = some id
connection_of (NsiMessage.data_plane_state_change change) = some change.connection_id
connection_of (NsiMessage.error_event event) = some event.connection_id
connection_of (NsiMessage.release_confirmed id) = some id
connection_of (NsiMessage.terminate_confirmed id) = some id
connection_of (NsiMessage.query_recursive_result _) = none
connection_of (NsiMessage.soap_fault _) = none

abbrev pub IsCarried : Option String → Option String → Type 0
IsCarried none text = Unit {0}
IsCarried (some id) text = text ≡ some id

module _ {Element : Type 0} (etree : Etree Element) where
  -- The message is of the operation's class, and names the connection that the operation names.
  pub record IsOf (local : String) (operation : Element) (message : NsiMessage) : Type 0 where
    pub kind : Dict.lookup local operation_types ≡ some (type_name message)
    pub carried :
        IsCarried (connection_of message) (etree.findtext operation (plain "connectionId"))

  module _ (local : String) (operation : Element) where
    parse_reserve_response-IsOf :
        Dict.lookup local operation_types ≡ some "ReserveResponse"
        → Ensures (IsOf local operation) (parse_reserve_response etree operation)
    unfolding parse_reserve_response
    parse_reserve_response-IsOf kind = ground (arith, require-eq etree operation "connectionId")

    parse_reserve_confirmed-IsOf :
        Dict.lookup local operation_types ≡ some "ReserveConfirmed"
        → Ensures (IsOf local operation) (parse_reserve_confirmed etree operation)
    unfolding parse_reserve_confirmed
    parse_reserve_confirmed-IsOf kind = ground (arith, require-eq etree operation "connectionId")

    parse_reserve_timeout-IsOf :
        Dict.lookup local operation_types ≡ some "ReserveTimeout"
        → Ensures (IsOf local operation) (parse_reserve_timeout etree operation)
    unfolding parse_reserve_timeout
    parse_reserve_timeout-IsOf kind = ground (arith, require-eq etree operation "connectionId")

    parse_change-IsOf :
        Dict.lookup local operation_types ≡ some "DataPlaneStateChange"
        → Ensures (IsOf local operation) (parse_change etree operation)
    unfolding parse_change
    parse_change-IsOf kind = ground (arith, require-eq etree operation "connectionId")

    parse_event-IsOf :
        Dict.lookup local operation_types ≡ some "ErrorEvent"
        → Ensures (IsOf local operation) (parse_event etree operation)
    unfolding parse_event
    parse_event-IsOf kind = ground (arith, require-eq etree operation "connectionId")

    parse_recursive-IsOf :
        Dict.lookup local operation_types ≡ some "QueryRecursiveResult"
        → Ensures (IsOf local operation) (parse_recursive etree operation)
    unfolding parse_recursive
    parse_recursive-IsOf kind = ground arith

    parse_rejection-IsOf :
        Dict.lookup local operation_types ≡ some "SoapFault"
        → Ensures (IsOf local operation) (parse_rejection etree operation)
    unfolding parse_rejection
    parse_rejection-IsOf kind = ground arith

    parse_confirmed-IsOf :
        (message : String → NsiMessage)
        → ((id : String) → Dict.lookup local operation_types ≡ some (type_name (message id)))
        → ((id : String) → connection_of (message id) ≡ some id)
        → Ensures (IsOf local operation) (parse_confirmed etree message operation)
    unfolding parse_confirmed
    parse_confirmed-IsOf message kind named =
        Ensures-bind (IsOf local operation) (require etree operation "connectionId")
          (λ id. value (message id))
          λ id e. record {
            kind = kind id;
            carried = rw (named id) (require-eq etree operation _ id e);
          }

    parse_failed-IsOf :
        (name : String) (message : FailedResult → NsiMessage)
        → ((r : FailedResult) → Dict.lookup local operation_types ≡ some (type_name (message r)))
        → ((r : FailedResult) → connection_of (message r) ≡ some r.connection_id)
        → Ensures (IsOf local operation) (parse_failed etree name message operation)
    unfolding parse_failed
    parse_failed-IsOf name message kind named =
        let result : String → ServiceException → FailedResult =
          λ id x. record { connection_id = id; service_exception = x } in
        Ensures-bind (IsOf local operation) _ _ λ el _.
          Ensures-bind (IsOf local operation) (require etree operation "connectionId")
            (λ id. parse_service_exception etree el >>= λ x. value (message (result id x)))
            λ id e.
              Ensures-bind (IsOf local operation) (parse_service_exception etree el)
                (λ x. value (message (result id x)))
                λ x _. record {
                  kind = kind (result id x);
                  carried = rw (named (result id x)) (require-eq etree operation _ id e);
                }

    abbrev Fits : Parsed NsiMessage → Type 0
    Fits = Ensures (IsOf local operation)

    if-Fits :
        (name : String) (here other : Parsed NsiMessage)
        → (local ≡ name → Fits here)
        → Fits other
        → Fits (if local == name then here else other)
    if-Fits name here other h k = elim (Bool-cases (local == name)) [
      | inl p ↦ rw p (h (ground (arith, eq_iff local name)))
      | inr q ↦ rw q k
    ]

    parse_operation-IsOf : Fits (parse_operation etree local operation)
    unfolding parse_operation Dict.lookup
    parse_operation-IsOf =
        if-Fits _ _ _ (λ e. parse_reserve_response-IsOf (rw e refl))
          (if-Fits _ _ _ (λ e. parse_reserve_confirmed-IsOf (rw e refl))
            (if-Fits _ _ _
              (λ e.
                parse_failed-IsOf "reserveFailed" NsiMessage.reserve_failed (λ r. rw e refl)
                  (λ r. refl))
              (if-Fits _ _ _ (λ e. parse_reserve_timeout-IsOf (rw e refl))
                (if-Fits _ _ _
                  (λ e.
                    parse_failed-IsOf "reserveCommitFailed" NsiMessage.reserve_commit_failed
                      (λ r. rw e refl) (λ r. refl))
                  (if-Fits _ _ _
                    (λ e.
                      parse_confirmed-IsOf NsiMessage.reserve_commit_confirmed (λ r. rw e refl)
                        (λ r. refl))
                    (if-Fits _ _ _
                      (λ e.
                        parse_confirmed-IsOf NsiMessage.provision_confirmed (λ r. rw e refl)
                          (λ r. refl))
                      (if-Fits _ _ _ (λ e. parse_change-IsOf (rw e refl))
                        (if-Fits _ _ _ (λ e. parse_event-IsOf (rw e refl))
                          (if-Fits _ _ _
                            (λ e.
                              parse_confirmed-IsOf NsiMessage.release_confirmed (λ r. rw e refl)
                                (λ r. refl))
                            (if-Fits _ _ _
                              (λ e.
                                parse_confirmed-IsOf NsiMessage.terminate_confirmed (λ r. rw e refl)
                                  (λ r. refl))
                              (if-Fits _ _ _ (λ e. record { kind = rw e refl; carried = tt })
                                (if-Fits _ _ _ (λ e. parse_recursive-IsOf (rw e refl))
                                  (if-Fits _ _ _ (λ e. parse_rejection-IsOf (rw e refl))
                                    tt)))))))))))))

  -- If `parse` returns a message, the tree has a body with a first element, the message is of the
  -- class that the docstring lists for that element's local name, and names the connection that
  -- the element's connectionId names, for the messages that name one.
  pub parse-IsOf :
      (root : Element) (message : NsiMessage)
      → parse etree root ≡ value message
      → (operation : Element) × (local : String) × (body_operation etree root ≡ value operation)
        × (local_name etree operation ≡ value local)
        × IsOf local operation message
  unfolding parse
  parse-IsOf root message h =
      let (operation, found, named) =
        >>=-value (body_operation etree root)
          (λ o. local_name etree o >>= λ local. parse_operation etree local o) h in
      let (local, tagged, parsed) =
        >>=-value (local_name etree operation) (λ local. parse_operation etree local operation)
          named in
      (
        operation,
        local,
        found,
        tagged,
        Ensures-value (IsOf local operation) _ message (parse_operation-IsOf local operation)
            parsed,
      )
