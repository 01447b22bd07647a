-- ===== src/Evidence/Batch.antt =====
-- packages/core/evidence/codec.go: the batches that a collector sends, the texts they are decoded from, and
-- the receipts for them.
pub mod Numbered
pub mod Decoded
use tokeninsights.Prelude.{
  ℕ, suc, ◌+◌, ◌^◌, String, Bool, true, false, not, ◌&&◌, ◌||◌, List, [], ◌∷◌, is_none, ltb, leb,
  length, ◌==◌, nat_eq, string_eq, if◌then◌else◌,
}
use tokeninsights.Prelude.Int.{ℤ, pos, ◌+ℤ◌, ◌-ℤ◌, ltb_ℤ, leb_ℤ, int_eq}
use tokeninsights.Prelude.Results.{Result, err, ok, guard, ◌>>=◌, ◌>>◌}
use tokeninsights.Publication.{safe_integer}
use tokeninsights.Publication.Validation.{valid_timestamp_ms}
use tokeninsights.Evidence.Json.{
  Json, null, truth, number, text, array, object, Items, nil, item, Members, end, member,
}
use tokeninsights.Evidence.Records.{SourceRecord, validate_record, valid_id}

abbrev pub max_entries : ℕ
max_entries = 256

abbrev pub max_body_bytes : ℕ
max_body_bytes = 2 ^ 20

-- Entry
pub record BatchEntry : Type 0 where
  pub sequence : ℤ
  pub source : SourceRecord

pub record Batch : Type 0 where
  pub protocol_version : ℤ
  pub extractor_version : ℤ
  pub database_id : String
  pub dataset_id : String
  pub stream_id : String
  pub batch_id : String
  pub from_sequence : ℤ
  pub to_sequence : ℤ
  pub entries : List BatchEntry

pub record Receipt : Type 0 where
  pub database_id : String
  pub dataset_id : String
  pub stream_id : String
  pub batch_id : String
  pub request_hash : String
  pub from_sequence : ℤ
  pub to_sequence : ℤ
  pub accepted : ℤ
  pub accepted_at_ms : ℤ
  pub input_revision : ℤ

abbrev pub stands : String → List String → Bool
stands key [] = false
stands key (k ∷ ks) = if k == key then true else stands key ks

-- `uniqueValue` on the value that the tokens spell, at a depth.
unfoldable mutual
  pub unique_value : ℕ → Json → Result String (Unit {0})
  unique_value depth (object ms) =
      guard (leb depth 32) "invalid_request" >> unique_members depth [] ms
  unique_value depth (array xs) = guard (leb depth 32) "invalid_request" >> unique_items depth xs
  unique_value depth null = guard (leb depth 32) "invalid_request"
  unique_value depth (truth b) = guard (leb depth 32) "invalid_request"
  unique_value depth (number n) = guard (leb depth 32) "invalid_request"
  unique_value depth (text s) = guard (leb depth 32) "invalid_request"

  pub unique_items : ℕ → Items → Result String (Unit {0})
  unique_items depth nil = ok tt
  unique_items depth (item x xs) = unique_value (suc depth) x >> unique_items depth xs

  -- The members of an object, of which the names in the list are seen.
  pub unique_members : ℕ → List String → Members → Result String (Unit {0})
  unique_members depth seen end = ok tt
  unique_members depth seen (member key v rest) =
      guard (not (stands key seen)) "duplicate_field"
      >> (unique_value (suc depth) v >> unique_members depth (key ∷ seen) rest)

-- `StrictDecode` up to the decoding into the fields of the target, of a text of this many bytes that spells
-- the value; a text that is no UTF-8 or no JSON spells none.
unfoldable pub strict_decode : ℕ → Json → Result String Json
strict_decode bytes value = do
  guard (not (ltb max_body_bytes bytes)) "body_limit"
  unique_value 0 value
  ok value

unfoldable pub check_batch_identity : Batch → Bool
check_batch_identity b =
    valid_id b.database_id
    && (valid_id b.stream_id
        && (valid_id b.batch_id
            && (not (length b.entries == 0)
                && (not (ltb max_entries (length b.entries))
                    && (not (leb_ℤ b.from_sequence (pos 0))
                        && (not (ltb_ℤ (pos safe_integer) b.to_sequence)
                            && (not (ltb_ℤ b.to_sequence b.from_sequence)
                                && b.to_sequence -ℤ b.from_sequence +ℤ pos 1
                                  == pos (length b.entries))))))))

-- The loop over the entries, from an index on.
unfoldable pub check_entries : ℤ → ℕ → List BatchEntry → Result String (Unit {0})
check_entries from index [] = ok tt
check_entries from index (e ∷ es) =
    guard (e.sequence == from +ℤ pos index) "invalid_sequence"
    >> (validate_record e.source >> check_entries from (suc index) es)

-- `DecodeBatch` of a batch that is decoded.
unfoldable pub decode_batch : Batch → Result String Batch
decode_batch b = do
  guard (b.protocol_version == pos 3 && b.extractor_version == pos 1) "incompatible"
  guard (valid_id b.dataset_id) "invalid_dataset"
  guard (check_batch_identity b) "invalid_identity"
  check_entries b.from_sequence 0 b.entries
  ok b

-- `ValidateReceipt`, with the hash of the request.
unfoldable pub validate_receipt : Batch → String → Receipt → Bool
validate_receipt b request_hash r =
    r.database_id == b.database_id
    && (r.dataset_id == b.dataset_id
        && (r.stream_id == b.stream_id
            && (r.batch_id == b.batch_id
                && (r.request_hash == request_hash
                    && (r.from_sequence == b.from_sequence
                        && (r.to_sequence == b.to_sequence
                            && (r.accepted == pos (length b.entries)
                                && (valid_timestamp_ms r.accepted_at_ms
                                    && (not (ltb_ℤ r.input_revision (pos 0))
                                        && not (ltb_ℤ (pos safe_integer) r.input_revision))))))))))
