-- ===== src/Errors/Handlers/Details.antt =====
-- The loop over the details of a gRPC status (handlers.go).
use re_master.Prelude.{
  String, ◌≡◌, refl, ◌∙◌, ap, false, List, [], ◌∷◌, ◌++◌, ◌==◌, arith, All, eq_iff,
}
use re_master.Prelude.Maps.{Map}
use re_master.Errors.Handlers.{
  StatusDetail, error_info, bad_request_info, resource_info, other_detail, DetailValue, add_detail,
  add_details,
}

-- A detail that does not set the response's code.
abbrev pub GivesNoReason : StatusDetail → Type 0
GivesNoReason (error_info reason m) = reason ≡ ""
GivesNoReason _ = Unit

module _ (acc : String × Map DetailValue) where
  add_detail-GivesNoReason : (d : StatusDetail) → GivesNoReason d → (add_detail d acc).0 ≡ acc.0
  unfolding add_detail
  add_detail-GivesNoReason (error_info reason m) h = ground (arith, eq_iff reason "")
  add_detail-GivesNoReason (bad_request_info vs) h = refl
  add_detail-GivesNoReason (resource_info type name) h = refl
  add_detail-GivesNoReason other_detail h = refl

add_details-GivesNoReason :
    (ds : List StatusDetail) (acc : String × Map DetailValue)
    → All GivesNoReason ds
    → (add_details ds acc).0 ≡ acc.0
unfolding add_details
add_details-GivesNoReason [] acc h = refl
add_details-GivesNoReason (d ∷ ds) acc (h, hs) =
    add_details-GivesNoReason ds (add_detail d acc) hs ∙ add_detail-GivesNoReason acc d h

add_details-append :
    (ds es : List StatusDetail) (acc : String × Map DetailValue)
    → add_details (ds ++ es) acc ≡ add_details es (add_details ds acc)
unfolding add_details
add_details-append [] es acc = refl
add_details-append (d ∷ ds) es acc = add_details-append ds es (add_detail d acc)

-- The response's code is the last reason given, if that is not empty: what stands before the last
-- `ErrorInfo` and what follows it without a reason does not change the code.
last_reason_wins :
    (before after : List StatusDetail) (reason : String) (metadata : Map String)
    (acc : String × Map DetailValue)
    → (reason == "") ≡ false
    → All GivesNoReason after
    → (add_details (before ++ error_info reason metadata ∷ after) acc).0 ≡ reason
last_reason_wins before after reason metadata acc given silent =
    let there = add_details before acc in
    ap (λ (r : String × Map DetailValue). r.0)
      (add_details-append before (error_info reason metadata ∷ after) acc)
    ∙ unfold add_details in
      (add_details-GivesNoReason after (add_detail (error_info reason metadata) there) silent
        ∙ unfold add_detail in rw given)
