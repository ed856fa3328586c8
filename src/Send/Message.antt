-- ===== src/Send/Message.antt =====
-- internal/app/content.go, sticker.go and send.go: the content of a message, and its send.
use go_signal.Send.StyleArguments.{parse_styles}
use go_signal.Send.Prepare.{prepare, Loader, MessageRequest, check_edit, check_sticker_request}
use go_signal.Base.{
  ℕ, not, Option, none, some, List, [], ◌∷◌, ◌++◌, Bytes, is_empty, length, drop, map, Outcome,
  returns, fails, ◌>>=◌, if◌then◌else◌,
}
use go_signal.Uuid.{UuidLib}
use go_signal.Types.{
  no_recipient, Quote, Recipient, Mention, TextStyle, StickerReference, UploadedAttachment,
}
use go_signal.Policy.Targets.{Target, Directory, Result, ok, err, resolve_users}
use go_signal.Policy.Arguments.{parse_message_ref}
use go_signal.Policy.Allowlist.{Allowlist}
use go_signal.Send.Content.{
  Client, OutgoingAttachment, StickerData, SendState, AppError, invalid_edit, invalid_styles,
  invalid_arguments, unresolved_target, no_upload, no_sticker, Content, no_content,
}
use go_signal.Send.Mentions.{FoundMention, mention_length, parse_mentions}
use go_signal.Send.Deliver.{Build, Sent, send_prepared}

-- resolvedMentions: the found mentions with the targets at their positions.
unfoldable pub resolved_mentions : List FoundMention → List Target → List Mention
resolved_mentions [] targets = []
resolved_mentions (m ∷ ms) [] = []
resolved_mentions (m ∷ ms) (t ∷ ts) =
    record { start = m.start; length = mention_length; recipient = t.recipient }
    ∷ resolved_mentions ms ts

abbrev targets_found : List FoundMention → List Target
targets_found ms = map (λ m. m.target) ms

-- targets[len(targets)-1].Recipient; there is a target.
unfoldable pub last_recipient : Recipient → List Target → Recipient
last_recipient r [] = r
last_recipient r (t ∷ ts) = last_recipient t.recipient ts

module _ ⦃u : UuidLib⦄ where
  -- The parts of a message whose users are resolved together.
  pub record Parts : Type 0 where
    pub base : Content
    pub found : List FoundMention
    pub quote_text : Bytes
    pub quote_mentions : List FoundMention
    pub quoted : Option (Target × ℕ)

  abbrev authors : Option (Target × ℕ) → List Target
  authors none = []
  authors (some (author, timestamp)) = author ∷ []

  abbrev pub parts_targets : Parts → List Target
  parts_targets p = targets_found p.found ++ targets_found p.quote_mentions ++ authors p.quoted

  abbrev quote_of : Parts → List Target → Option (Target × ℕ) → Option Quote
  quote_of p targets none = none
  quote_of p targets (some (author, timestamp)) = some (record {
    author = last_recipient no_recipient targets;
    timestamp = timestamp;
    text = p.quote_text;
    mentions = resolved_mentions p.quote_mentions (drop (length p.found) targets);
  })

  unfoldable pub filled_content : Parts → Result (List Target) → Outcome AppError Content
  filled_content p (err e) = fails (unresolved_target e)
  filled_content p (ok targets) = returns (record p.base {
    mentions = resolved_mentions p.found targets;
    quote = quote_of p targets p.quoted;
  })

  unfoldable pub resolve_parts : Directory → Parts → Outcome AppError Content
  unfolding filled_content
  resolve_parts dir p =
      if is_empty (parts_targets p)
      then returns p.base
      else filled_content p (resolve_users dir (parts_targets p))

  abbrev parts_of : MessageRequest → Option (Target × ℕ) → Parts
  parts_of req quoted = record {
    base = record no_content {
      body = (parse_mentions req.body).text;
      edit_target = req.edit_target;
    };
    found = (parse_mentions req.body).mentions;
    quote_text = (parse_mentions req.quote_text).text;
    quote_mentions = (parse_mentions req.quote_text).mentions;
    quoted = quoted;
  }

  unfoldable pub with_quote :
      Directory → MessageRequest → Option (Target × ℕ) → Outcome AppError Content
  unfolding resolve_parts
  with_quote dir req none = fails invalid_arguments
  with_quote dir req (some quoted) = resolve_parts dir (parts_of req (some quoted))

  -- App.resolveContent
  unfoldable pub resolve_content : Directory → MessageRequest → Outcome AppError Content
  unfolding with_quote resolve_parts
  resolve_content dir req =
      if is_empty req.quote
      then resolve_parts dir (parts_of req none)
      else with_quote dir req (parse_message_ref req.quote)

  abbrev sticker_content :
      StickerReference → Bytes → List UploadedAttachment → Outcome AppError Content
  sticker_content ref emoji (image ∷ []) = returns (record no_content {
    sticker = some (record { reference = ref; emoji = emoji; image = image });
  })
  sticker_content ref emoji _ = fails no_upload

  abbrev uploaded : Option (List UploadedAttachment) → Outcome AppError (List UploadedAttachment)
  uploaded none = fails no_upload
  uploaded (some files) = returns files

  unfoldable pub fetched : Client → StickerReference → Option StickerData → Outcome AppError Content
  fetched client ref none = fails no_sticker
  fetched client ref (some d) =
      uploaded (client.upload (d.image ∷ [])) >>= λ images. sticker_content ref d.emoji images

  -- App.buildSticker
  unfoldable pub build_sticker : Client → StickerReference → Outcome AppError Content
  unfolding fetched
  build_sticker client ref = fetched client ref (client.fetch_sticker ref)

  unfoldable pub with_files :
      Client → List OutgoingAttachment → List TextStyle → Content → Outcome AppError Content
  with_files client files styles msg =
      if is_empty files
      then returns (record msg { styles = styles })
      else (uploaded (client.upload files) >>= λ sent.
          returns (record msg { styles = styles; attachments = sent }))

  -- App.buildContent
  unfoldable pub build_content :
      Client → MessageRequest → List OutgoingAttachment → List TextStyle → Outcome AppError Content
  unfolding build_sticker resolve_content with_files
  build_content client req files styles = elim req.sticker [
    | some ref ↦ build_sticker client ref
    | none ↦ (resolve_content client.directory req >>= with_files client files styles)
  ]

  -- A build that only makes content, and reports nothing of it.
  abbrev pub pure_build : Outcome AppError Content → Build Unit
  pure_build content s targets = (s, content >>= λ msg. returns (tt, msg))

  unfoldable pub send_prepared_message :
      Client
      → Option Allowlist
      → ℕ
      → List TextStyle
      → SendState
      → Outcome AppError (MessageRequest × List OutgoingAttachment)
      → SendState × Outcome AppError (Sent Unit)
  unfolding build_content
  send_prepared_message client allow now styles s (fails e) = (s, fails e)
  send_prepared_message client allow now styles s (returns (req, files)) =
      send_prepared client allow now (pure_build (build_content client req files styles)) s
        req.recipients

  unfoldable pub send_styled :
      Client
      → Loader
      → Option Allowlist
      → ℕ
      → SendState
      → MessageRequest
      → Option (List TextStyle)
      → SendState × Outcome AppError (Sent Unit)
  unfolding send_prepared_message
  send_styled client load allow now s req none = (s, fails invalid_styles)
  send_styled client load allow now s req (some styles) =
      send_prepared_message client allow now styles s (prepare load req)

  -- App.Send
  unfoldable pub send :
      Client
      → Loader
      → Option Allowlist
      → ℕ
      → SendState
      → MessageRequest
      → SendState × Outcome AppError (Sent Unit)
  unfolding send_styled
  send client load allow now s req =
      if not (check_sticker_request req)
      then (s, fails no_sticker)
      else if not (check_edit now req)
      then (s, fails invalid_edit)
      else send_styled client load allow now s req (parse_styles req.body req.styles)
