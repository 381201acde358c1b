-- ===== src/Journal/Codec.antt =====
-- crates/hns-rollback-journal/src/lib.rs: `JournalRecord::decode` on a complete input.
use hns_rs.Base.{
  ◌+◌, ◌-◌, not, ◌||◌, ltb, length, take, drop, Result, ok, ◌>>=◌, ◌>>◌, ensure, map_err,
}
use hns_rs.Base.Bytes.{Bytes, bytes_eq}
use hns_rs.Hash.{Blake2b}
use hns_rs.Encoding.Decoder.{new, finish}
use hns_rs.Journal.Binding.{JournalError, decode_error, invalid, magic, max_journal_record_size}
use hns_rs.Journal.Record.{JournalRecord, encode, validate, journal_checksum}
use hns_rs.Journal.Decode.{decode_fields}

module _ ⦃blake : Blake2b⦄ where
  unfoldable pub decode : Bytes → Result JournalError JournalRecord
  decode input = do
    ensure
        (not (
          ltb (length input) (length magic + 2 + 32) || ltb max_journal_record_size (length input)))
        (invalid "invalid journal record size")
    let body = take (length input - 32) input
    let checksum = drop (length input - 32) input
    ensure (bytes_eq (journal_checksum body) checksum) (invalid "journal checksum mismatch")
    (r, decoder) ← decode_fields (new body)
    map_err decode_error (finish decoder)
    validate r
    ensure (bytes_eq (encode r) input) (invalid "noncanonical journal record")
    ok r
