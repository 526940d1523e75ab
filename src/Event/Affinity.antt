-- ===== src/Event/Affinity.antt =====
-- internal/event/affinity.go: the key by which events are kept in order.
use raider_worker.Json.{
  Decoded, decode_string, decode_struct, decoded, Json, malformed, Payload, same_name,
}
use raider_worker.Base.{Option, Text, [], if◌then◌else◌, is_empty, none, some, text, ◌++◌}
use raider_worker.Event.Types.{Event}

-- The probe struct of `extractCaseID`, which holds the case id alone.
unfoldable pub set_probe : Text → Json → Text → Decoded Text
unfolding decode_string
set_probe name j case_id =
    if same_name name (text "caseid")
    then decode_string (text "struct field .caseId of type string") j case_id
    else decoded case_id

abbrev pub or_empty : Decoded Text → Text
or_empty (decoded s) = s
or_empty (malformed e) = []

unfoldable pub extract_case_id : Option Json → Text
unfolding set_probe decode_struct
extract_case_id none = []
extract_case_id (some j) =
    or_empty (decode_struct set_probe (text "value of type struct") [] (Payload.json j))

-- `AffinityKey`.
unfoldable pub affinity_key : Event → Text
affinity_key e =
    let case_id = extract_case_id e.payload in
    if is_empty case_id then e.tenant_id else e.tenant_id ++ (text ":" ++ case_id)
