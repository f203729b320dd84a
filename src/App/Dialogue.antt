-- ===== src/App/Dialogue.antt =====
-- The dialogue of frontend/src/components/ShareModal.jsx, as data: its texts, the codes and the buttons.
use poll.Prelude.{
  String, ◌++◌, ◌≡◌, refl, Bool, true, false, Option, none, some, List, [], ◌∷◌, All, truthy,
  or_text, or_text-truthy, ◌==◌, if◌then◌else◌,
}
use poll.App.Router.{App, Main, vote, results, navigate, main_content, view_content}
use poll.Auth.Session.{Session}
use poll.App.Share.{
  vote_query, vote_url, Copying, written, write_failed, timed_out, copied, open_page, parse_query,
  is_plain, opened, share_links,
}

-- A button that opens a page: its label, and the view.
pub record PageButton : Type 0 where
  pub label : String
  pub view : String

pub record Dialogue : Type 0 where
  pub heading : String
  pub caption : String
  pub qr_value : String
  pub qr_hint : String
  pub link_label : String
  pub link : String
  pub copy_is_primary : Bool
  pub copy_label : String
  pub buttons : List PageButton

abbrev pub page_button : (label view : String) → PageButton
page_button label view = record { label = label; view = view }

-- The title of the poll is empty where there is none.
unfoldable pub dialogue : (origin poll_id poll_title : String) → (is_copied : Bool) → Dialogue
dialogue origin poll_id poll_title is_copied = record {
  heading = "Share Poll";
  caption = or_text poll_title "Invite your audience to vote live.";
  qr_value = vote_url origin poll_id;
  qr_hint = "Scan with phone camera to vote";
  link_label = "Direct Voting Link";
  link = vote_url origin poll_id;
  copy_is_primary = if is_copied then false else true;
  copy_label = if is_copied then "Copied" else "Copy";
  buttons = page_button "Open Voting Page" "vote" ∷ page_button "Open Live Results" "results" ∷ [];
}

-- `ShareModal`
unfoldable pub share_modal :
    (is_open : Bool) → (origin poll_id poll_title : String) → (is_copied : Bool) → Option Dialogue
unfolding dialogue
share_modal is_open origin poll_id poll_title is_copied =
    if is_open then some (dialogue origin poll_id poll_title is_copied) else none

-- the clipboard and the mark after the button `Copy`, and after its timeout
unfoldable pub copy_link : Copying → Dialogue → (clipboard : String) → Bool → String × Bool
unfolding copied
copy_link written d clipboard before = (d.link, copied written before)
copy_link write_failed d clipboard before = (clipboard, copied write_failed before)
copy_link timed_out d clipboard before = (clipboard, copied timed_out before)

-- A button of the dialogue opens the page of the poll that its label names.
abbrev pub page_of : (label poll_id : String) → Main
page_of label poll_id =
    if label == "Open Voting Page" then vote (some poll_id) else results (some poll_id)

abbrev pub OpensPage : Session → String → (App → App) → App → PageButton → Type 0
OpensPage s poll_id close a b =
    main_content s (open_page b.view poll_id close a) ≡ page_of b.label poll_id

module _ (decode : String → String) (origin id title clipboard : String) (before : Bool) where
  -- The dialogue of a poll, where it is open, has a caption, a code and a link, which are the same and
  -- open the voting page of the poll; copying the link puts it on the clipboard and says so until the
  -- timeout; and its buttons open the pages of that poll that they name. The session is checked,
  -- decoding leaves plain texts as they are, and the identifier is plain and not empty.
  pub dialogue_leads :
      (s : Session) (a : App) (close : App → App)
      → s.loading ≡ false
      → ((t : String) → is_plain t ≡ true → decode t ≡ t)
      → is_plain id ≡ true
      → truthy id ≡ true
      → let d = dialogue origin id title before in
        let (now, mark) = copy_link written d clipboard before in
        (share_modal true origin id title before ≡ some d)
        × (truthy d.caption ≡ true)
        × (d.qr_value ≡ origin ++ ("/" ++ vote_query id))
        × (opened (parse_query decode (vote_query id)) a ≡ ("vote", some id))
        × (now ≡ d.qr_value)
        × ((dialogue origin id title mark).copy_label ≡ "Copied")
        × ((dialogue origin id title (copied timed_out mark)).copy_label ≡ "Copy")
        × All (OpensPage s id close a) d.buttons
  unfolding share_modal copy_link vote_url open_page navigate main_content view_content
  dialogue_leads s a close loaded decodes plain given = (
    refl,
    or_text-truthy title "Invite your audience to vote live." refl,
    refl,
    (share_links decode id a decodes plain given).0,
    refl,
    refl,
    refl,
    rw loaded (refl, (refl, tt)),
  )
