-- ===== src/DataModel/Tests.antt =====
-- A protocol with an enum of two values and a message with a group, as nodes that are numbers.
use simdfix.Base.{
  ℕ, zero, suc, refl, if◌then◌else◌, String, str_eq, ◌==◌, ◌&&◌, List, [], ◌∷◌, arith,
}
use simdfix.Base.Int.{pos}
use simdfix.Types.{RecordType}
use simdfix.DataModel.{Xml, DataModel, enum_field}
use simdfix.DataModel.Merge.{has_name, merge_values}
use simdfix.DataModel.Records.{process_records, process_all_records}
use simdfix.DataModel.Names.{ListedOutcome, process_all_records-Listed}
use simdfix.DataModel.Nested.{Completes, process_records-Completes}
use simdfix.DataModel.Values.{DifferentNames, HasValues, merge_values-DifferentNames}

-- 0 is the protocol, 1 a message, 2 its group; 3 and 4 are the values of an enum.
abbrev names : ℕ → String
names zero = "protocol"
names (suc zero) = "Order"
names (suc (suc zero)) = "Legs"
names (suc (suc (suc zero))) = "Buy"
names _ = "Sell"

abbrev selected : ℕ → String → List ℕ
selected n path =
    if (n == 0) && str_eq path ".//message"
    then 1 ∷ []
    else if ((n == 0) && str_eq path ".//group")
    then 2 ∷ []
    else if ((n == 1) && str_eq path "group")
    then 2 ∷ []
    else []

abbrev xml : Xml
xml = record {
  Node = ℕ;
  node_name = λ n. if n == 1 then "message" else "group";
  attribute = λ n key. if str_eq key "name" then names n else "1";
  int_attribute = λ n key. pos n;
  children = λ n. if n == 1 then 2 ∷ [] else [];
  child = λ n key. n;
  select_nodes = selected;
  ancestor_groups = λ n. 0;
}

abbrev empty : DataModel
empty = record { types = []; records_by_type = []; enums = []; records = [] }

process_all_records-Listed_example : ListedOutcome (process_all_records xml 3 0 empty)
process_all_records-Listed_example =
    process_all_records-Listed xml 3 0 empty (tt, λ k e. absurd (ground arith))

process_records-Completes_example :
    Completes xml 2
      (1 ∷ [])
      RecordType.message
      empty
      (process_records xml 2 (1 ∷ []) RecordType.message empty)
process_records-Completes_example =
    process_records-Completes xml 2 (1 ∷ []) RecordType.message empty ((tt, tt), tt)

merge_values-DifferentNames_example :
    DifferentNames
      (merge_values xml (3 ∷ 4 ∷ 3 ∷ []) (enum_field "Null" "?" ∷ enum_field "Sell" "2" ∷ []))
    × HasValues xml
        (3 ∷ 4 ∷ 3 ∷ [])
        (merge_values xml (3 ∷ 4 ∷ 3 ∷ []) (enum_field "Null" "?" ∷ enum_field "Sell" "2" ∷ []))
unfolding has_name
merge_values-DifferentNames_example =
    merge_values-DifferentNames xml (3 ∷ 4 ∷ 3 ∷ [])
      (enum_field "Null" "?" ∷ enum_field "Sell" "2" ∷ []) (refl, (refl, tt))
