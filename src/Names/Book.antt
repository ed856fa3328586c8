-- ===== src/Names/Book.antt =====
-- internal/app/names.go: the users that an event names, and the book that keeps the names up to
-- date.
use go_signal.Base.{
  ℕ, ◌-◌, Bool, not, ◌&&◌, Option, none, some, List, [], ◌∷◌, ◌++◌, Bytes, is_empty, any, map, ltb,
  if◌then◌else◌,
}
use go_signal.Types.{Recipient, Mention, Quote}
use go_signal.Events.{
  Envelope, Event, message, story, poll_vote, poll_close, pin, unpin, edit, delete, reaction,
  typing, receipt, read_sync, unsupported, decryption_failure,
}
use go_signal.Names.{
  Contact, Names, new_names, CachedTitles, cached_titles, with_groups, lookup, name, is_self,
}

abbrev mentioned : List Mention → List Recipient
mentioned ms = map (λ m. m.recipient) ms

abbrev of_envelope : Envelope → List Recipient → List Recipient
of_envelope e more = e.sender ∷ e.chat.recipient ∷ more

abbrev quote_author : Option Quote → List Recipient
quote_author none = []
quote_author (some q) = q.author ∷ []

abbrev quote_mentions : Option Quote → List Recipient
quote_mentions none = []
quote_mentions (some q) = mentioned q.mentions

-- EventRecipients
unfoldable pub event_recipients : Event → List Recipient
event_recipients (story e) = of_envelope e.envelope (mentioned e.mentions)
event_recipients (message e) =
    of_envelope e.envelope (quote_author e.quote ++ mentioned e.mentions ++ quote_mentions e.quote)
event_recipients (poll_vote e) = of_envelope e.envelope (e.target_author ∷ [])
event_recipients (poll_close e) = of_envelope e.envelope []
event_recipients (pin e) = of_envelope e.envelope (e.target_author ∷ [])
event_recipients (unpin e) = of_envelope e.envelope (e.target_author ∷ [])
event_recipients (edit e) = of_envelope e.envelope (mentioned e.mentions)
event_recipients (delete e) = of_envelope e.envelope []
event_recipients (reaction e) = of_envelope e.envelope (e.target_author ∷ [])
event_recipients (typing e) = of_envelope e.envelope []
event_recipients (unsupported e) = of_envelope e.envelope []
event_recipients (receipt e) = e.sender ∷ []
event_recipients (decryption_failure e) = e.sender ∷ []
event_recipients (read_sync e) = map (λ m. m.sender) e.messages
event_recipients _ = []

-- The client's Account, Contacts and GroupTitles; `none` is an error.
pub record NameSource : Type 0 where
  pub own_aci : Option Bytes
  pub contacts : Option (List Contact)
  pub titles : Option CachedTitles

abbrev titled : Names → Option CachedTitles → Names
titled n none = n
titled n (some titles) = with_groups n (cached_titles titles)

-- App.Names
unfoldable pub load_names : NameSource → Option Names
unfolding new_names with_groups cached_titles
load_names src = loaded src.own_aci src.contacts
  where
    loaded : Option Bytes → Option (List Contact) → Option Names
    loaded (some own) (some contacts) = some (titled (new_names own contacts) src.titles)
    loaded _ _ = none

-- NameReloadInterval in nanoseconds
abbrev pub name_reload_interval : ℕ
name_reload_interval = 30_000_000_000

-- NameBook: the time is in nanoseconds.
pub record NameBook : Type 0 where
  pub names : Names
  pub loaded : ℕ

-- NameBook.reload: whether the names were loaded, or its error.
pub data Reload : Type 0 where
  kept reloaded reload_failed : Reload

unfoldable pub reload : NameSource → ℕ → NameBook → NameBook × Reload
unfolding load_names
reload src now book = with_names (load_names src)
  where
    with_names : Option Names → NameBook × Reload
    with_names none = (record book { loaded = now }, reload_failed)
    with_names (some n) = (record { names = n; loaded = now }, reloaded)

abbrev is_unknown : Names → Recipient → Bool
is_unknown n r = not (is_empty r.aci) && not (is_self n r) && is_empty (name n r)

-- NameBook.Refresh at the time `now`
unfoldable pub refresh : NameSource → ℕ → NameBook → Event → NameBook × Reload
unfolding event_recipients reload lookup is_self
refresh src now book e =
    if ltb (now - book.loaded) name_reload_interval
    then (book, kept)
    else if any (is_unknown book.names) (event_recipients e)
    then reload src now book
    else (book, kept)
