-- ===== src/Server/Registry/Invariant.antt =====
-- What holds of the sessions of a server at any time.
use hislip.Prelude.{
  ℕ, suc, ◌%◌, ◌^◌, ◌≤◌, ◌<◌, ◌≡◌, refl, ◌∙◌, ap, subst, inl, inr, false, Option, none, some, List,
  [], ◌∷◌, Bytes, length, All, ◌==◌, if◌then◌else◌, Bool-cases, arith,
}
use hislip.Prelude.Int.{ℤ, pos, negsuc, below}
use hislip.Errors.{Result, ok, err, ◌>>◌}
use hislip.Protocol.Version.{Version}
use hislip.Protocol.Header.{Header}
use hislip.Protocol.Stream.{Stream}
use hislip.Server.Session.{Session, new_session, attach_async}
use hislip.Server.Config.{Config, with_defaults, validate}
use hislip.Server.Config.Profile.{validate_iff}
use hislip.Server.Registry.{
  Registry, session, in_use, at_least, add_session, allocate_session, allocate_id, replace, remove,
  initialize, initialize_checked, respond_initialize, attach_result, attach_found, new_server,
  check_initialize, async_initialize, remove_session, close_all,
}
use hislip.Server.Registry.Ids.{allocate_id-fresh, allocate_id-next}

-- A session ID is a nonzero number of 16 bits.
abbrev pub HasId : Session → Type 0
HasId s = (0 < s.id) × (s.id < 2 ^ 16)

-- No two sessions have the same ID, so that the list is a map.
abbrev pub Distinct : List Session → Type 0
Distinct [] = Unit
Distinct (x ∷ xs) = (in_use xs x.id ≡ false) × Distinct xs

-- `n` is at most an int.
abbrev pub Within : ℕ → ℤ → Type 0
Within n (pos m) = n ≤ m
Within n (negsuc m) = ⊥

pub record IsValid (g : Registry) : Type 0 where
  pub ids : All HasId g.sessions
  pub distinct : Distinct g.sessions
  pub room : Within (length g.sessions) g.cfg.max_sessions
  pub next_pos : 0 < g.next_id
  pub next_fits : g.next_id < 2 ^ 16

room-suc : (n : ℕ) (m : ℤ) → at_least n m ≡ false → Within (suc n) m
room-suc n (pos m) h = ground arith
room-suc n (negsuc m) h = cc

added-IsValid :
    (g : Registry) (version : Version) (stream : ℕ) (found : Option ℕ × ℕ)
    → allocate_id g.sessions g.next_id ≡ found
    → at_least (length g.sessions) g.cfg.max_sessions ≡ false
    → IsValid g
    → IsValid (add_session g version stream found).1
unfolding new_session
added-IsValid g version stream (none, next) e r v =
    let n = allocate_id-next g.sessions g.next_id v.next_pos v.next_fits in
    let is : (allocate_id g.sessions g.next_id).1 ≡ next = ap (λ (x : Option ℕ × ℕ). x.1) e in
    record {
      ids = v.ids;
      distinct = v.distinct;
      room = v.room;
      next_pos = rw (← is) (n.0);
      next_fits = rw (← is) (n.1);
    }
added-IsValid g version stream (some id, next) e r v =
    let f = (allocate_id-fresh g.sessions g.next_id v.next_pos v.next_fits).0 id next e in
    record {
      ids = ((f.1, f.2), v.ids);
      distinct = (f.0, v.distinct);
      room = room-suc (length g.sessions) g.cfg.max_sessions r;
      next_pos = f.3;
      next_fits = f.4;
    }

allocate_session-IsValid :
    (g : Registry) (version : Version) (stream : ℕ)
    → IsValid g
    → IsValid (allocate_session g version stream).1
unfolding allocate_session
allocate_session-IsValid g version stream v =
    elim (Bool-cases (at_least (length g.sessions) g.cfg.max_sessions)) [
      | inl full ↦ rw full v
      | inr room ↦
          rw room (added-IsValid g version stream (allocate_id g.sessions g.next_id) refl room v)
    ]

responded-IsValid :
    (cfg : Config) (version : Version) (r : Result Session × Registry)
    → IsValid r.1
    → IsValid (respond_initialize cfg version r).1
responded-IsValid cfg version (err e, g) v = v
responded-IsValid cfg version (ok sess, g) v = v

initialized-IsValid :
    (r : Result Version) (g : Registry) (stream : ℕ)
    → IsValid g
    → IsValid (initialize_checked r g stream).1
initialized-IsValid (err e) g stream v = v
initialized-IsValid (ok version) g stream v =
    responded-IsValid g.cfg version (allocate_session g version stream)
      (allocate_session-IsValid g version stream v)

pub initialize-IsValid :
    (g : Registry) (h : Header) (sub_address : Bytes) (stream : ℕ)
    → IsValid g
    → IsValid (initialize g h sub_address stream).1
unfolding initialize
initialize-IsValid g h sub_address stream v =
    initialized-IsValid (check_initialize g.cfg h sub_address) g stream v

-- A session that takes another's place keeps its ID.
length-replace : (xs : List Session) (s : Session) → length (replace xs s) ≡ length xs
length-replace [] s = refl
length-replace (x ∷ xs) s = ground (arith, length-replace xs s)

in_use-replace :
    (xs : List Session) (s : Session) (id : ℕ) → in_use (replace xs s) id ≡ in_use xs id
in_use-replace [] s id = refl
in_use-replace (x ∷ xs) s id = ground (arith, in_use-replace xs s id)

Distinct-replace : (xs : List Session) (s : Session) → Distinct xs → Distinct (replace xs s)
Distinct-replace [] s d = tt
Distinct-replace (x ∷ xs) s d = elim (Bool-cases (x.id == s.id)) [
  | inl same ↦ rw same (ground arith)
  | inr other ↦ rw other (in_use-replace xs s x.id ∙ d.0, Distinct-replace xs s d.1)
]

HasId-replace : (xs : List Session) (s : Session) → All HasId xs → All HasId (replace xs s)
HasId-replace [] s a = tt
HasId-replace (x ∷ xs) s a = ground (arith, HasId-replace xs s)

pub replace-IsValid :
    (g : Registry) (s : Session)
    → IsValid g
    → IsValid (record g { sessions = replace g.sessions s })
replace-IsValid g s v = record {
  ids = HasId-replace g.sessions s v.ids;
  distinct = Distinct-replace g.sessions s v.distinct;
  room = rw (length-replace g.sessions s) (v.room);
  next_pos = v.next_pos;
  next_fits = v.next_fits;
}

length-remove : (xs : List Session) (id : ℕ) → length (remove xs id) ≤ length xs
length-remove [] id = omega arith
length-remove (x ∷ xs) id = ground (arith, length-remove xs id)

pub in_use-remove :
    (xs : List Session) (id other : ℕ)
    → in_use (remove xs id) other ≡ (if id == other then false else in_use xs other)
in_use-remove [] id other = ground arith
in_use-remove (x ∷ xs) id other = ground (arith, in_use-remove xs id other)

Distinct-remove : (xs : List Session) (id : ℕ) → Distinct xs → Distinct (remove xs id)
Distinct-remove [] id d = tt
Distinct-remove (x ∷ xs) id d = ground (arith, Distinct-remove xs id, in_use-remove xs id x.id)

HasId-remove : (xs : List Session) (id : ℕ) → All HasId xs → All HasId (remove xs id)
HasId-remove [] id a = tt
HasId-remove (x ∷ xs) id a = ground (arith, HasId-remove xs id)

Within-le : (n k : ℕ) (m : ℤ) → k ≤ n → Within n m → Within k m
Within-le n k (pos m) h w = omega arith
Within-le n k (negsuc m) h w = w

pub remove_session-IsValid :
    (g : Registry) (s : Session) → IsValid g → IsValid (remove_session g s).2
unfolding remove_session
remove_session-IsValid g s v = record {
  ids = HasId-remove g.sessions s.id v.ids;
  distinct = Distinct-remove g.sessions s.id v.distinct;
  room = Within-le _ _ g.cfg.max_sessions (length-remove g.sessions s.id) v.room;
  next_pos = v.next_pos;
  next_fits = v.next_fits;
}

pub close_all-IsValid : (g : Registry) → IsValid g → IsValid (close_all g).1
unfolding close_all
close_all-IsValid g v = record {
  ids = tt;
  distinct = tt;
  room = Within-le (length g.sessions) 0 g.cfg.max_sessions (omega arith) v.room;
  next_pos = v.next_pos;
  next_fits = v.next_fits;
}

attached-IsValid : (g : Registry) (r : Result Session) → IsValid g → IsValid (attach_result g r).1
attached-IsValid g (err e) v = v
attached-IsValid g (ok s) v = replace-IsValid g s v

found-IsValid :
    (g : Registry) (found : Option Session) (stream : ℕ)
    → IsValid g
    → IsValid (attach_found g found stream).1
found-IsValid g none stream v = v
found-IsValid g (some s) stream v = attached-IsValid g (attach_async s stream) v

pub async_initialize-IsValid :
    (g : Registry) (h : Header) (stream : ℕ) → IsValid g → IsValid (async_initialize g h stream).1
unfolding async_initialize
async_initialize-IsValid g h stream v =
    ground (arith, found-IsValid g (session g.sessions (h.parameter % 2 ^ 16)) stream v)

made :
    (r : Result (Unit {0})) (made : Registry) (g : Registry)
    → (r >> ok made) ≡ ok g
    → (r ≡ ok tt) × (made ≡ g)
made (ok tt) m g e = (refl, ground arith)
made (err x) m g e = cc

Within-zero : (m : ℤ) → below m 1 ≡ false → Within 0 m
Within-zero (pos m) h = omega arith
Within-zero (negsuc m) h = ground arith

-- A server that is made has no session, and a limit that is not negative.
pub new_server-IsValid :
    (c : Config) (conns : ℕ → Stream) (g : Registry) → new_server c conns ≡ ok g → IsValid g
unfolding new_server
new_server-IsValid c conns g e =
    let cfg = with_defaults c in
    let m = made (validate cfg) _ g e in
    subst IsValid (m.1) (record {
      ids = tt;
      distinct = tt;
      room = Within-zero cfg.max_sessions ((validate_iff cfg).0 m.0).sessions;
      next_pos = omega arith;
      next_fits = omega arith;
    })
