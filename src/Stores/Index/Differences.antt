-- ===== src/Stores/Index/Differences.antt =====
-- stores/index.rs: `diff_indexes`.
use mail_backup.Base.{
  Bool, true, false, Option, none, some, List, [], ◌∷◌, ◌++◌, Text, All, length, length-sort, sort,
  text_leb, is_some, nat_eq, list_eq, eq_iff, ◌≡◌, refl, ◌↔◌, arith, ap, sym, ◌∙◌,
}
use mail_backup.Entities.{MailboxRecord, find, iter}
use mail_backup.Stores.{StoredMessage}
use mail_backup.Stores.Index.{
  StoreIndex, get_message, messages, message_issues, mailbox_issues, unexpected, gathered,
  all_issues, diff_indexes,
}

-- The message is found, at the same path and with the same content.
abbrev pub SameMessage : StoredMessage → Option StoredMessage → Type 0
SameMessage m none = ⊥
SameMessage m (some found) = (found.path ≡ m.path) × (found.sha256 ≡ m.sha256)

abbrev pub SameMailbox : MailboxRecord → Option MailboxRecord → Type 0
SameMailbox r none = ⊥
SameMailbox r (some found) = found.dir_path ≡ r.dir_path

-- Each index has the messages and the mailboxes of the other, at the same places.
abbrev pub Agree : StoreIndex → StoreIndex → Type 0
Agree expected actual =
    All (λ m. SameMessage m (get_message actual m.meta.id)) (messages expected)
    × All (λ m. is_some (get_message expected m.meta.id) ≡ true) (messages actual)
    × All (λ r. SameMailbox r (find actual.mailboxes r.info.id)) (iter expected.mailboxes)
    × All (λ r. is_some (find expected.mailboxes r.info.id) ≡ true) (iter actual.mailboxes)

message_issues_iff :
    (m : StoredMessage) (o : Option StoredMessage) → (message_issues m o ≡ []) ↔ SameMessage m o
unfolding message_issues
message_issues_iff m none = ((λ e. cc), (λ e. absurd e))
message_issues_iff m (some found) =
    ground (arith, eq_iff found.path m.path, eq_iff found.sha256 m.sha256)

mailbox_issues_iff :
    (r : MailboxRecord) (o : Option MailboxRecord) → (mailbox_issues r o ≡ []) ↔ SameMailbox r o
unfolding mailbox_issues
mailbox_issues_iff r none = ((λ e. cc), (λ e. absurd e))
mailbox_issues_iff r (some found) = ground (arith, eq_iff found.dir_path r.dir_path)

unexpected_iff : (name : Text) (b : Bool) → (unexpected name b ≡ []) ↔ (b ≡ true)
unfolding unexpected
unexpected_iff name true = ((λ e. refl), (λ e. refl))
unexpected_iff name false = ((λ e. cc), (λ e. cc))

append_nil_iff : (xs ys : List Text) → ((xs ++ ys) ≡ []) ↔ ((xs ≡ []) × (ys ≡ []))
append_nil_iff [] ys = ((λ e. (refl, e)), (λ e. e.1))
append_nil_iff (x ∷ xs) ys = ((λ e. cc), (λ e. cc))

gathered_iff :
    {A : Type 0} (f : A → List Text) (P : A → Type 0)
    → ((x : A) → (f x ≡ []) ↔ P x)
    → (xs : List A) → (gathered f xs ≡ []) ↔ All P xs
gathered_iff f P h [] = ((λ e. tt), (λ e. refl))
gathered_iff f P h (x ∷ xs) = (
  λ e.
      let (here, there) = (append_nil_iff (f x) (gathered f xs)).0 e in
      ((h x).0 here, (gathered_iff f P h xs).0 there),
  λ k. (append_nil_iff (f x) (gathered f xs)).1 ((h x).1 k.0, (gathered_iff f P h xs).1 k.1),
)

nil_of_length : (xs : List Text) → length xs ≡ 0 → xs ≡ []
nil_of_length [] e = refl
nil_of_length (x ∷ xs) e = absurd (omega arith)

sort_nil_iff : (xs : List Text) → (sort text_leb xs ≡ []) ↔ (xs ≡ [])
unfolding sort
sort_nil_iff xs = (
  λ e. nil_of_length xs (sym (length-sort text_leb xs) ∙ ap (λ (l : List Text). length l) e),
  λ e. ap (λ (l : List Text). sort text_leb l) e,
)

-- The comparison of two indexes reports nothing exactly where every expected message is there, at
-- its path and with its content, every expected mailbox is at its directory, and nothing else is
-- there.
pub diff_indexes_iff :
    (expected actual : StoreIndex) → (diff_indexes expected actual ≡ []) ↔ Agree expected actual
unfolding diff_indexes all_issues
diff_indexes_iff expected actual =
    let a =
      gathered_iff (λ m. message_issues m (get_message actual m.meta.id)) _
        (λ m. message_issues_iff m (get_message actual m.meta.id)) (messages expected) in
    let b =
      gathered_iff _ (λ m. is_some (get_message expected m.meta.id) ≡ true)
        (λ m. unexpected_iff _ (is_some (get_message expected m.meta.id))) (messages actual) in
    let c =
      gathered_iff (λ r. mailbox_issues r (find actual.mailboxes r.info.id)) _
        (λ r. mailbox_issues_iff r (find actual.mailboxes r.info.id)) (iter expected.mailboxes) in
    let d =
      gathered_iff _ (λ r. is_some (find expected.mailboxes r.info.id) ≡ true)
        (λ r. unexpected_iff _ (is_some (find expected.mailboxes r.info.id)))
        (iter actual.mailboxes) in
    (
      λ e.
          let (ha, rest) = (append_nil_iff _ _).0 ((sort_nil_iff _).0 e) in
          let (hb, rest') = (append_nil_iff _ _).0 rest in
          let (hc, hd) = (append_nil_iff _ _).0 rest' in (a.0 ha, b.0 hb, c.0 hc, d.0 hd),
      λ k. (sort_nil_iff _).1 (
          (append_nil_iff _ _).1
            (a.1 k.0, (append_nil_iff _ _).1 (b.1 k.1, (append_nil_iff _ _).1 (c.1 k.2, d.1 k.3)))),
    )
