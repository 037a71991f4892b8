-- ===== src/Session/Links.antt =====
-- What the session service promises on a node that stands alone, without lists and their order: which
-- user a socket has, and which sockets and devices of a user are linked.
use sama_server.Prelude.{
  ℕ, ◌==◌, ◌≡◌, ◌≤◌, refl, ap, ◌∙◌, Bool, true, false, not, ◌&&◌, ◌||◌, List, [], ◌∷◌, Option, none,
  some, if◌then◌else◌, find, filter, any, count, arith, Bool-cases, inl, inr,
}
use sama_server.Prelude.Text.{Text, same_text, same_text_iff, same_text_sym}
use sama_server.Session.{
  Connection, ActiveSessions, get_user_devices, get_session_user_id, has_socket, has_device,
  device_of, is_device, is_device_id,
}
use sama_server.Session.Node.{text_or}
use sama_server.Session.Lifecycle.{null_text}

pub record Links : Type 0 where
  pub user_of : ℕ → Option Text
  pub linked : Text → ℕ → Text → Bool

pub data Call : Type 0 where
  connect : (socket : ℕ) (org uid device : Text) → Call
  close : (socket : ℕ) → Call

-- A device and a socket that are connected lose the links that they had with the user; a socket that
-- closes takes the devices along that it is linked with.
abbrev pub promised : Call → Links → Links
promised (connect socket org uid device) l = record {
  user_of = λ k. if k == socket then some uid else l.user_of k;
  linked = λ v k d.
      if same_text v uid
      then (k == socket && same_text d device)
        || (l.linked uid k d && not (k == socket || same_text d device))
      else l.linked v k d;
}
promised (close socket) l = record {
  user_of = λ k. if k == socket then none else l.user_of k;
  linked = λ v k d.
      let uid = text_or (l.user_of socket) null_text in
      if same_text v uid then l.linked uid k d && not (l.linked uid socket d) else l.linked v k d;
}

abbrev pub all_promised : List Call → Links → Links
all_promised [] l = l
all_promised (c ∷ cs) l = all_promised cs (promised c l)

abbrev pub is_link : ℕ → Text → Connection → Bool
is_link k d c = has_socket k c && has_device d c

-- The state and the links say the same.
abbrev pub Agrees : ActiveSessions → Links → Type 0
Agrees a l =
    ((k : ℕ) → get_session_user_id k a ≡ l.user_of k)
    × ((v : Text) (k : ℕ) (d : Text) → any (is_link k d) (get_user_devices v a) ≡ l.linked v k d)

none_linked :
    (k : ℕ) (d : Text) (cs : List Connection)
    → count (has_socket k) cs ≡ 0
    → any (is_link k d) cs ≡ false
none_linked k d [] h = refl
none_linked k d (c ∷ cs) h = ground (arith, none_linked k d cs)

pub find-is_link :
    (k : ℕ) (d : Text) (cs : List Connection)
    → count (has_socket k) cs ≤ 1
    → is_device_id d (device_of (find (has_socket k) cs)) ≡ any (is_link k d) cs
find-is_link k d [] h = refl
find-is_link k d (c ∷ cs) h = elim (Bool-cases (has_socket k c)) [
  | inl e ↦
      let none_left : count (has_socket k) cs ≡ 0 = ground arith in
      rw (e, none_linked k d cs none_left, same_text_sym d c.device_id) (ground arith)
  | inr e ↦ rw e (find-is_link k d cs (ground arith))
]

-- The two ways to say that a connection of the device d goes with the device e.
pub same_device : (d e x : Text) → same_text x d ≡ true → same_text x e ≡ same_text d e
same_device d e x h = ap (λ y. same_text y e) ((same_text_iff x d).0 h)

goes_along :
    (k : ℕ) (d : Text) (device : Option Text) (c : Connection)
    → is_link k d c ≡ true
    → is_device device c ≡ is_device_id d device
goes_along k d none c h = refl
goes_along k d (some e) c h = same_device d e c.device_id (ground arith)

filter-step :
    (l r m s : Bool)
    → (l ≡ true → m ≡ s)
    → (if not m then l || (r && not s) else (r && not s)) ≡ ((l || r) && not s)
filter-step true r true s h = rw (← h refl) (ground arith)
filter-step true r false s h = rw (← h refl) (ground arith)
filter-step false r true s h = refl
filter-step false r false s h = refl

any-if :
    (b : Bool) (p : Connection → Bool) (c : Connection) (cs : List Connection)
    → any p (if b then c ∷ cs else cs) ≡ (if b then p c || any p cs else any p cs)
any-if true p c cs = refl
any-if false p c cs = refl

pub any-filter :
    (k : ℕ) (d : Text) (device : Option Text) (cs : List Connection)
    → any (is_link k d) (filter (λ c. not (is_device device c)) cs)
      ≡ (any (is_link k d) cs && not (is_device_id d device))
any-filter k d device [] = refl
any-filter k d device (c ∷ cs) =
    let kept = filter (λ c. not (is_device device c)) cs in
    any-if (not (is_device device c)) (is_link k d) c kept
    ∙ (rw (any-filter k d device cs) (
        filter-step (is_link k d c) (any (is_link k d) cs) (is_device device c)
          (is_device_id d device) (goes_along k d device c)))
