-- ===== src/Stores/Examples/Formats.antt =====
-- Formats for the tests of the stores, in place of YAML and JSON.
use mail_backup.Base.{ℕ, Option, none, List, [], Text, refl, nat_eq, list_eq}
use mail_backup.Base.Codec.{
  Codec, number_codec, text_codec, option_codec, list_codec, pair_codec, via, write_whole,
  read_whole, read_whole-write_whole,
}
use mail_backup.Entities.{SourceState}
use mail_backup.Stores.{StoreState, BackfillCursor}
use mail_backup.Stores.Sidecar.{MessageSidecar, MailboxSidecar, Yaml, IsYaml}
use mail_backup.Stores.Persistence.{Json}
use mail_backup.Stores.Directory.Running.Store.{IsJson}

abbrev maybe_text : Codec (Option Text)
maybe_text = option_codec text_codec

abbrev maybe_number : Codec (Option ℕ)
maybe_number = option_codec number_codec

abbrev texts_codec : Codec (List Text)
texts_codec = list_codec text_codec

abbrev source_codec : Codec SourceState
source_codec =
    via (pair_codec text_codec (pair_codec maybe_text maybe_text))
      (λ p. record { account_id = p.0; email_state = p.1.0; mailbox_state = p.1.1 })
      (λ s. (s.account_id, (s.email_state, s.mailbox_state))) (λ s. refl)

abbrev cursor_codec : Codec BackfillCursor
cursor_codec =
    via
      (pair_codec maybe_text
        (pair_codec maybe_text (pair_codec maybe_text (pair_codec maybe_number number_codec))))
      (λ p. record {
        start_email_state = p.0;
        start_mailbox_state = p.1.0;
        anchor_id = p.1.1.0;
        last_committed_day = p.1.1.1.0;
        processed = p.1.1.1.1;
      })
      (λ c. (
        c.start_email_state,
        (c.start_mailbox_state, (c.anchor_id, (c.last_committed_day, c.processed))),
      ))
      (λ c. refl)

abbrev state_codec : Codec StoreState
state_codec =
    via
      (pair_codec source_codec
        (pair_codec (option_codec cursor_codec) (pair_codec maybe_number maybe_text)))
      (λ p. record {
        source = p.0;
        backfill = p.1.0;
        current_commit_day = p.1.1.0;
        head_at_save = p.1.1.1;
      })
      (λ s. (s.source, (s.backfill, (s.current_commit_day, s.head_at_save)))) (λ s. refl)

abbrev message_codec : Codec MessageSidecar
message_codec =
    via
      (pair_codec
        (pair_codec number_codec (pair_codec text_codec (pair_codec text_codec text_codec)))
        (pair_codec
          (pair_codec texts_codec (pair_codec texts_codec (pair_codec number_codec number_codec)))
          (pair_codec texts_codec (pair_codec maybe_text (pair_codec texts_codec text_codec)))))
      (λ p. record {
        v = p.0.0;
        id = p.0.1.0;
        blob_id = p.0.1.1.0;
        thread_id = p.0.1.1.1;
        mailbox_ids = p.1.0.0;
        keywords = p.1.0.1.0;
        received_at = p.1.0.1.1.0;
        size = p.1.0.1.1.1;
        message_id = p.1.1.0;
        subject = p.1.1.1.0;
        from = p.1.1.1.1.0;
        sha256 = p.1.1.1.1.1;
      })
      (λ s. (
        (s.v, (s.id, (s.blob_id, s.thread_id))),
        (
          (s.mailbox_ids, (s.keywords, (s.received_at, s.size))),
          (s.message_id, (s.subject, (s.from, s.sha256))),
        ),
      ))
      (λ s. refl)

abbrev mailbox_codec : Codec MailboxSidecar
mailbox_codec =
    via
      (pair_codec number_codec (
        pair_codec text_codec
          (pair_codec text_codec (pair_codec maybe_text (pair_codec maybe_text number_codec)))))
      (λ p. record {
        v = p.0;
        id = p.1.0;
        name = p.1.1.0;
        role = p.1.1.1.0;
        parent_id = p.1.1.1.1.0;
        sort_order = p.1.1.1.1.1;
      })
      (λ s. (s.v, (s.id, (s.name, (s.role, (s.parent_id, s.sort_order)))))) (λ s. refl)

abbrev pub yaml : Yaml
yaml = record {
  message_to_string = write_whole message_codec;
  message_from_slice = read_whole message_codec;
  mailbox_to_string = write_whole mailbox_codec;
  mailbox_from_slice = read_whole mailbox_codec;
}

pub yaml-IsYaml : IsYaml yaml
yaml-IsYaml = record {
  message_back = read_whole-write_whole message_codec;
  mailbox_back = read_whole-write_whole mailbox_codec;
}

-- No index is written in the tests.
abbrev pub json : Json
json = record {
  state_to_vec = write_whole state_codec;
  state_from_slice = read_whole state_codec;
  index_to_vec = λ f. [];
  index_from_slice = λ b. none;
}

pub json-IsJson : IsJson json
json-IsJson = record { state_back = read_whole-write_whole state_codec }
