-- ===== src/DataDecoder.antt =====
-- The class `DataDecoder` of decoder/DataDecoder.hpp, which reads raw data whose length stands in a
-- field of its own. Its state is the result of the last `wrap`.
use simdfix.Base.{ℕ, List, Option, none, some}
use simdfix.Types.{success, Expected, value, unexpected}
use simdfix.FieldDecoder.{FieldDecoder, next_field, convert_to_uint32, buffer_at}

-- The data field was found or not.
abbrev data_of : ℕ → FieldDecoder → Option ℕ → Expected (List ℕ)
data_of len d none = unexpected success
data_of len d (some i) = value (buffer_at (d.fields i).position len d)

-- The length field was converted or not.
abbrev converted : ℕ → FieldDecoder → Expected ℕ → Expected (List ℕ)
converted data_tag d (unexpected s) = unexpected s
converted data_tag d (value len) = data_of len d (next_field data_tag d)

-- The length field was found or not.
abbrev length_of : ℕ → FieldDecoder → Option ℕ → Expected (List ℕ)
length_of data_tag d none = unexpected success
length_of data_tag d (some i) = converted data_tag d (convert_to_uint32 (d.fields i) d)

-- `wrap`, and what `get` answers after it.
unfoldable pub wrap : ℕ → ℕ → FieldDecoder → Expected (List ℕ)
wrap length_tag data_tag d = length_of data_tag d (next_field length_tag d)
