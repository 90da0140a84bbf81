-- ===== src/Server/Handlers/Batch/Laws.antt =====
-- What a batch of invitations, `handleInvite` of internal/server/server.go, leaves behind.
use vps_user_portal.Email.{Sender, Envelope, envelope, smtp, log, off, send_welcome}
use vps_user_portal.Userstore.Store.{add}
use vps_user_portal.Userstore.Edits.Verified.{IsAdded}
use vps_user_portal.Userstore.Types.{Result, is_duplicate, User}
use vps_user_portal.Userstore.Store.Sound.{IsStored, add-IsStored}
use vps_user_portal.Userstore.Mutate.Publish.{IsProper}
use vps_user_portal.Userstore.Disk.{Dir}
use vps_user_portal.Server.Invites.Laws.{IsInvitable, build_invite_user-IsInvitable}
use vps_user_portal.Server.Invites.{InviteEntry, build_invite_user, Problem}
use vps_user_portal.Server.Handlers.{World, record_event, call_all, for_app}
use vps_user_portal.Text.{Text}
use vps_user_portal.Text.Case.{Unicode}
use vps_user_portal.Base.{
  List, Bool, true, ◌∷◌, false, if◌then◌else◌, [], ◌≡◌, ◌++◌, ok, err, Bool-cases, ◌&&◌, Option,
  Outcome, ℕ, inl, some, length, inr, subst, sym, append-nil, append_assoc, ap, refl, none, arith,
  ◌+◌, suc, ◌∙◌, not, ◌⊎◌, ◌==◌,
}
use vps_user_portal.Server.Handlers.Batch.{
  Status, Row, Batch, created, added, invite_one, mailed, Luck, not_accepted, hashed, built,
  invite_all, not_written, no_hash, already_exists, mail_failures, posted, welcomed,
}

abbrev is_reached : {E : Type 0} → Status E → Bool
is_reached (created ws m) = not m
is_reached _ = false

-- The addresses of the accounts made for which no failed mail is reported
pub reached_emails : {E : Type 0} → List (Row E) → List Text
reached_emails [] = []
reached_emails (r ∷ rs) =
    let rest = reached_emails rs in if is_reached r.status then r.email ∷ rest else rest

abbrev pub is_smtp : Sender → Bool
is_smtp (smtp s) = true
is_smtp log = false
is_smtp off = false

-- Whom mails go to
pub recipients : List Envelope → List Text
recipients [] = []
recipients (e ∷ es) = e.to ++ recipients es

recipients-append : (es fs : List Envelope) → recipients (es ++ fs) ≡ recipients es ++ recipients fs
unfolding recipients
recipients-append [] fs = refl
recipients-append (e ∷ es) fs = simp (recipients-append es fs, append_assoc)

nothing_sent : (asked : Bool) (ms : List Text) → ms ≡ (if asked then ms ++ [] else ms)
nothing_sent true ms = sym (append-nil ms)
nothing_sent false ms = refl

-- Behind the mails of an entry come those of the entries that follow.
sent_after :
    (asked made : Bool) (ms : List Text) (email : Text) (later : List Text)
    → (if asked
        then (if asked && made then ms ++ email ∷ [] else ms) ++ later
        else (if asked && made then ms ++ email ∷ [] else ms))
      ≡ (if asked then ms ++ (if made then email ∷ later else later) else ms)
sent_after true true ms email later = append_assoc ms (email ∷ []) later
sent_after true false ms email later = refl
sent_after false made ms email later = refl

-- What becomes of the mail to a new user, by whether it was asked for and the backend: the mails
-- before and after, and whether a failure is reported. With SMTP there is one mail more, as the
-- portal writes it, if the mail server takes it, and a failure if it does not; otherwise there is
-- neither.
abbrev pub Mails :
    Bool → Sender → (Envelope → Bool) → User → Text → Bool → List Envelope → List Envelope → Type 0
Mails true (smtp s) takes u url failed before after =
    ((takes (envelope s u.email u.display_name url) ≡ true)
      × (failed ≡ false)
      × (after ≡ before ++ envelope s u.email u.display_name url ∷ []))
    ⊎ ((takes (envelope s u.email u.display_name url) ≡ false) × (failed ≡ true) × (after ≡ before))
Mails true log takes u url failed before after = (failed ≡ false) × (after ≡ before)
Mails true off takes u url failed before after = (failed ≡ false) × (after ≡ before)
Mails false sender takes u url failed before after = (failed ≡ false) × (after ≡ before)

Mails-recipients :
    (asked : Bool) (sender : Sender) (takes : Envelope → Bool) (u : User) (url : Text)
    (failed : Bool) (before after : List Envelope)
    → Mails asked sender takes u url failed before after
    → recipients after ≡ (
        if (asked && is_smtp sender) && not failed
        then recipients before ++ u.email ∷ []
        else recipients before)
unfolding envelope recipients
Mails-recipients true (smtp s) takes u url failed before after (inl (taken, fine, sent)) =
    rw (sent, fine) (recipients-append before (envelope s u.email u.display_name url ∷ []))
Mails-recipients true (smtp s) takes u url failed before after (inr (refused, told, same)) =
    rw (same, told) refl
Mails-recipients true log takes u url failed before after (fine, same) = ap recipients same
Mails-recipients true off takes u url failed before after (fine, same) = ap recipients same
Mails-recipients false sender takes u url failed before after (fine, same) = ap recipients same

module _ ⦃unicode : Unicode⦄ {S E : Type 0} (b : Batch S E) where
  -- A created account stands in the users file, and the mail to it is as its report says; of what was
  -- not created the apps and the mail server are not told.
  abbrev pub IsHandled : Text → Luck → World S → World S → Status E → Type 0
  IsHandled email luck w after (created ws m) =
      (u : User) × IsInvitable b.config email b.groups u
      × IsStored b.yaml b.file (IsAdded b.yaml u) after.dir
      × Mails b.send_email b.sender luck.takes_mail u b.config.sso_url m w.mails after.mails
  IsHandled email luck w after (not_accepted e) = (after.apps ≡ w.apps) × (after.mails ≡ w.mails)
  IsHandled email luck w after no_hash = (after.apps ≡ w.apps) × (after.mails ≡ w.mails)
  IsHandled email luck w after already_exists = (after.apps ≡ w.apps) × (after.mails ≡ w.mails)
  IsHandled email luck w after (not_written e) = (after.apps ≡ w.apps) × (after.mails ≡ w.mails)

  pub mailed-lem :
      (u : User) (luck : Luck) (v : World S)
      → ((mailed b u luck v).dir ≡ v.dir) × ((mailed b u luck v).apps ≡ v.apps)
  unfolding mailed
  mailed-lem u luck v = elim (Bool-cases b.send_email) [
    | inl asked ↦ rw asked (refl, refl)
    | inr quiet ↦ rw quiet (refl, refl)
  ]

  mailed-Mails :
      (asked : Bool) (sender : Sender) (u : User) (luck : Luck) (v : World S)
      → Mails asked sender luck.takes_mail u b.config.sso_url
          (mail_failures (record b { send_email = asked; sender = sender }) u luck == 1)
          v.mails
          (mailed (record b { send_email = asked; sender = sender }) u luck v).mails
  unfolding mailed mail_failures posted welcomed send_welcome
  mailed-Mails true (smtp s) u luck v =
      elim (Bool-cases (luck.takes_mail (envelope s u.email u.display_name b.config.sso_url))) [
        | inl taken ↦ inl (taken, rw taken refl, rw taken refl)
        | inr refused ↦ inr (refused, rw refused refl, rw refused (append-nil v.mails))
      ]
  mailed-Mails true log u luck v = (refl, append-nil v.mails)
  mailed-Mails true off u luck v = (refl, append-nil v.mails)
  mailed-Mails false sender u luck v = (refl, refl)

  added-IsHandled :
      (email : Text) (u : User) (luck : Luck) (out : Dir × Result (Unit {0})) (w : World S)
      → IsInvitable b.config email b.groups u
      → (out.1 ≡ ok tt → IsStored b.yaml b.file (IsAdded b.yaml u) out.0)
      → IsHandled email luck w (added b u luck out w).0 (added b u luck out w).1
  unfolding added record_event
  added-IsHandled email u luck (dir, err e) w fine stored = elim (Bool-cases (is_duplicate e)) [
    | inl again ↦ rw again (refl, refl)
    | inr other ↦ rw other (refl, refl)
  ]
  added-IsHandled email u luck (dir, ok t) w fine stored =
      let told = call_all (λ p. p.provision (for_app u)) b.provs w.apps in
      let (same_dir, same_apps) = mailed-lem u luck (record w { dir = dir; apps = told.0 }) in
      (
        u,
        fine,
        subst (IsStored b.yaml b.file (IsAdded b.yaml u)) (sym same_dir) (stored refl),
        mailed-Mails b.send_email b.sender u luck (record w { dir = dir; apps = told.0 }),
      )

  hashed-IsHandled :
      (email : Text) (u : User) (luck : Luck) (hash : Option Text) (w : World S)
      → IsProper b.file
      → IsInvitable b.config email b.groups u
      → IsHandled email luck w (hashed b u luck hash w).0 (hashed b u luck hash w).1
  unfolding hashed record_event
  hashed-IsHandled email u luck none w proper fine = (refl, refl)
  hashed-IsHandled email u luck (some h) w proper fine =
      added-IsHandled email u luck (add b.yaml b.file u h luck.around w.dir) w fine
        (add-IsStored b.yaml b.file proper u h luck.around w.dir)

  built-IsHandled :
      (email : Text) (luck : Luck) (out : Outcome Problem User) (w : World S)
      → IsProper b.file
      → ((u : User) → out ≡ ok u → IsInvitable b.config email b.groups u)
      → IsHandled email luck w (built b luck out w).0 (built b luck out w).1
  unfolding built
  built-IsHandled email luck (err e) w proper fine = (refl, refl)
  built-IsHandled email luck (ok u) w proper fine =
      hashed-IsHandled email u luck luck.hash w proper (fine u refl)

  -- An entry of an invitation that is reported as created has made a user that the form can make; it
  -- is in the users file, which has exactly that entry more and every other as before; and one mail
  -- more, the portal's to that user, was taken by the mail server exactly if a mail was asked for, the
  -- backend is SMTP and the server took it, with a failure reported exactly if the server did not take
  -- it. For an entry reported in any other way, no app was called and no mail sent.
  pub invite_one-IsHandled :
      (entry : InviteEntry) (luck : Luck) (w : World S)
      → IsProper b.file
      → IsHandled entry.email luck w (invite_one b entry luck w).0 (invite_one b entry luck w).1
  unfolding invite_one
  invite_one-IsHandled entry luck w proper =
      built-IsHandled entry.email luck
        (build_invite_user b.config entry.email entry.display_name b.groups) w proper
        (λ u.
          build_invite_user-IsInvitable b.config entry.email entry.display_name b.groups {u = u})

  mails_of :
      (email : Text) (luck : Luck) (w after : World S) (s : Status E)
      → IsHandled email luck w after s
      → recipients after.mails ≡ (
          if (b.send_email && is_smtp b.sender) && is_reached s
          then recipients w.mails ++ email ∷ []
          else recipients w.mails)
  mails_of email luck w after (created ws m) (u, fine, stored, mails) =
      subst
        (λ (a : Text). recipients after.mails ≡ (
          if (b.send_email && is_smtp b.sender) && not m
          then recipients w.mails ++ a ∷ []
          else recipients w.mails))
        fine.email
        (Mails-recipients b.send_email b.sender luck.takes_mail u b.config.sso_url m w.mails
          after.mails mails)
  mails_of email luck w after (not_accepted e) h = ground (arith, ap recipients h.1)
  mails_of email luck w after no_hash h = ground (arith, ap recipients h.1)
  mails_of email luck w after already_exists h = ground (arith, ap recipients h.1)
  mails_of email luck w after (not_written e) h = ground (arith, ap recipients h.1)

  -- A batch reports on each of its entries. If mails were asked for and the backend is SMTP, the mails
  -- that the mail server took are to exactly the addresses of the accounts that were made and have no
  -- failed mail in their report, in order; otherwise there are none.
  pub invite_all_lem :
      (luck : ℕ → Luck) (i : ℕ) (entries : List InviteEntry) (w : World S)
      → IsProper b.file
      → (length (invite_all b luck i entries w).1 ≡ length entries)
        × (recipients (invite_all b luck i entries w).0.mails ≡ (
            if b.send_email && is_smtp b.sender
            then recipients w.mails ++ reached_emails (invite_all b luck i entries w).1
            else recipients w.mails))
  unfolding invite_all reached_emails
  invite_all_lem luck i [] w proper =
      (refl, nothing_sent (b.send_email && is_smtp b.sender) (recipients w.mails))
  invite_all_lem luck i (entry ∷ entries) w proper =
      let asked = b.send_email && is_smtp b.sender in
      let one = invite_one b entry (luck i) w in
      let rest = invite_all b luck (i + 1) entries one.0 in
      let (as_many, sent) = invite_all_lem luck (i + 1) entries one.0 proper in
      (
        ap suc as_many,
        sent
            ∙ ap (λ ms. if asked then ms ++ reached_emails rest.1 else ms)
                (mails_of entry.email (luck i) w one.0 one.1
                  (invite_one-IsHandled entry (luck i) w proper))
            ∙ sent_after asked (is_reached one.1) (recipients w.mails) entry.email
                (reached_emails rest.1),
      )
