-- ===== src/Cookie/Store/Replace.antt =====
-- src/cookie/store.rs, `insert_stored_cookie`: what a lookup finds afterwards.
use tlsurl.Base.{
  ℕ, ◌≡◌, inl, inr, Bool, ◌&&◌, Option, none, some, Text, ◌==◌, if◌then◌else◌, Option-cases,
  Bool-cases, text_eq,
}
use tlsurl.Cookie.{RawCookie, CanonicalHost, host_eq}
use tlsurl.Cookie.Scope.{CookieEntry}
use tlsurl.Cookie.Store.{Store, find, insert_stored_cookie, is_host_only}
use tlsurl.Cookie.Store.Lookup.{flag_beq, find-write}

-- The place of a cookie in the creation order: that of the entry with its key if the value stays
-- the same, and else the next one.
abbrev pub place : Option CookieEntry → RawCookie → ℕ → ℕ
place none cookie next = next
place (some old) cookie next = if old.cookie.value == cookie.value then old.creation_index else next

abbrev pub same_key : CanonicalHost → Text → RawCookie → CanonicalHost → Text → Text → Bool → Bool
same_key d p c d' p' n h =
    (d == d') && ((p == p') && (flag_beq (is_host_only c) h && (c.name == n)))

-- After an insertion, a lookup of the cookie's domain, path, name and scope finds it, in its place
-- in the creation order; every other lookup finds what it found before.
pub find-insert_stored_cookie :
    (s : Store) (d d' : CanonicalHost) (p p' n : Text) (h : Bool) (c : RawCookie)
    → find (insert_stored_cookie s d p c).cookies d' p' n h ≡ (
        if same_key d p c d' p' n h
        then some (record {
          cookie = c;
          creation_index =
              place (find s.cookies d p c.name (is_host_only c)) c s.next_creation_index;
        })
        else find s.cookies d' p' n h)
unfolding insert_stored_cookie
find-insert_stored_cookie s d d' p p' n h c =
    elim (Option-cases (find s.cookies d p c.name (is_host_only c))) [
      | inl e ↦
          rw (e, insert_stored_cookie)
            (find-write s.cookies d d' p p' c.name n (is_host_only c) h _)
      | inr (old, e) ↦
          rw (e, insert_stored_cookie)
            (elim (Bool-cases (old.cookie.value == c.value)) [
              | inl t ↦ rw t (find-write s.cookies d d' p p' c.name n (is_host_only c) h _)
              | inr t ↦ rw t (find-write s.cookies d d' p p' c.name n (is_host_only c) h _)
            ])
    ]
