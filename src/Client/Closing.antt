-- ===== src/Client/Closing.antt =====
-- `Reconnect` ends, and what it closes.
use dcr_sdk.Common.{
  ℕ, ◌+◌, ◌*◌, ◌≤◌, ◌<◌, ltb, ◌≡◌, ◌≢◌, refl, sym, ap, ◌∙◌, ◌↔◌, ◌⊎◌, inl, inr, Bool, true, false,
  ◌&&◌, Bool-cases, Option, none, some, List, [], ◌∷◌, ◌++◌, All, Any, length, if◌then◌else◌, arith,
}
use dcr_sdk.Common.Int.{ℤ, rounds}
use dcr_sdk.Client.Sharded.{Client, Group, ShardedClient}
use dcr_sdk.Client.Reconnect.{
  on_conn_dialed, dialled_all, poll_interval, Poll, Course, wait_idle, clear_conn, reconnect_held,
  reconnect, reconnect_clients, reconnect_groups, reconnect_all,
}

-- The wait is over exactly if a round found nothing in flight, or the deadline reached.
pub wait_idle_iff :
    (deadline : ℕ) (polls : List Poll)
    → (wait_idle deadline polls ≡ some tt)
      ↔ Any (λ poll. (poll.pending ≡ 0) ⊎ (deadline ≤ poll.now)) polls
unfolding wait_idle
wait_idle_iff deadline [] = ground arith
wait_idle_iff deadline (poll ∷ polls) = ground (arith, wait_idle_iff deadline polls)

-- Each round is at least the sleep after the one before.
abbrev pub IsPolled : ℕ → List Poll → Type 0
IsPolled from [] = Unit
IsPolled from (poll ∷ polls) = (from ≤ poll.now) × IsPolled (poll.now + poll_interval) polls

wait_idle-ends :
    (deadline from : ℕ) (polls : List Poll)
    → IsPolled from polls
    → from < deadline + poll_interval
    → deadline + poll_interval ≤ from + poll_interval * length polls
    → wait_idle deadline polls ≡ some tt
unfolding wait_idle
wait_idle-ends deadline from [] h early enough = absurd (omega arith)
wait_idle-ends deadline from (poll ∷ polls) (later, h) early enough =
    elim (Bool-cases (ltb 0 poll.pending && ltb poll.now deadline)) [
      | inr e ↦ rw (e, wait_idle) refl
      | inl e ↦
          let before : poll.now < deadline = ground arith in
          rw (e, wait_idle)
            (wait_idle-ends deadline (poll.now + poll_interval) polls h (omega arith) (omega arith))
    ]

abbrev pub last_or : Option ℕ → List ℕ → Option ℕ
last_or held [] = held
last_or held (conn ∷ conns) = last_or (some conn) conns

dialled_all-conn : (c : Client) (conns : List ℕ) → (dialled_all c conns).conn ≡ last_or c.conn conns
unfolding dialled_all on_conn_dialed
dialled_all-conn c [] = refl
dialled_all-conn c (conn ∷ conns) = dialled_all-conn (on_conn_dialed c conn) conns

-- The client that has dialled these connections and holds the last of them, or none, and nothing
-- older.
abbrev pub redialled : Client → List ℕ → Client
redialled c conns = record (dialled_all c conns) { conn = last_or none conns }

last_or-new :
    (held : ℕ) (other : ℕ) (conns : List ℕ)
    → All (λ conn. conn ≢ held) conns
    → other ≢ held
    → (conn : ℕ) × (last_or (some other) conns ≡ some conn) × (conn ≢ held)
last_or-new held other [] new h = (other, refl, h)
last_or-new held other (conn ∷ conns) (n, new) h = last_or-new held conn conns new n

clear_conn-held :
    (c : Client) (held : ℕ) → c.conn ≡ some held → clear_conn c held ≡ record c { conn = none }
unfolding clear_conn
clear_conn-held c held e = rw (e, clear_conn) (ground arith)

clear_conn-other :
    (c : Client) (held other : ℕ) → c.conn ≡ some other → other ≢ held → clear_conn c held ≡ c
unfolding clear_conn
clear_conn-other c held other e n = rw (e, clear_conn) (ground (arith, n))

-- A connection that was dialled meanwhile is kept.
clear_conn-dialled_all :
    (c : Client) (held : ℕ) (conns : List ℕ)
    → c.conn ≡ some held
    → All (λ conn. conn ≢ held) conns
    → clear_conn (dialled_all c conns) held ≡ redialled c conns
unfolding dialled_all on_conn_dialed
clear_conn-dialled_all c held [] e new = clear_conn-held c held e
clear_conn-dialled_all c held (conn ∷ conns) e (n, new) =
    let d = dialled_all (on_conn_dialed c conn) conns in
    let holds = dialled_all-conn (on_conn_dialed c conn) conns in
    let (other, last, differs) = last_or-new held conn conns new n in
    clear_conn-other d held other (holds ∙ last) differs ∙ ap (λ o. record d { conn = o }) holds

abbrev to_list : Option ℕ → List ℕ
to_list none = []
to_list (some conn) = conn ∷ []

-- The course of a client: if `reconnect` waits, then the loop can go as many rounds as fit into the
-- wait, and one more; and what is dialled is not the old connection.
abbrev pub IsCourse : Bool → ℤ → Client → Course → Type 0
IsCourse force wait c course =
    ((force ≡ true)
      ⊎ (IsPolled course.started course.polls
          × (rounds wait + poll_interval ≤ poll_interval * length course.polls)))
    × All (λ conn. c.conn ≢ some conn) course.meanwhile

over :
    (force : Bool) (wait : ℤ) (c : Client) (course : Course)
    → IsCourse force wait c course
    → (if force then some tt else wait_idle (course.started + rounds wait) course.polls) ≡ some tt
over true wait c course (h, new) = refl
over false wait c course (inl e, new) = cc
over false wait c course (inr (polled, enough), new) =
    wait_idle-ends (course.started + rounds wait) course.started course.polls polled (omega arith)
      (omega arith)

All-new :
    (c : Client) (held : ℕ) (conns : List ℕ)
    → c.conn ≡ some held
    → All (λ conn. c.conn ≢ some conn) conns
    → All (λ conn. conn ≢ held) conns
All-new c held [] e new = tt
All-new c held (conn ∷ conns) e (n, new) =
    (λ same. n (e ∙ ap some (sym same)), All-new c held conns e new)

reconnect_held-ends :
    (force : Bool) (wait : ℤ) (c : Client) (course : Course) (o : Option ℕ)
    → c.conn ≡ o
    → IsCourse force wait c course
    → reconnect_held force wait c course o ≡ some (redialled c course.meanwhile, to_list o)
unfolding reconnect_held
reconnect_held-ends force wait c course none e h =
    let holds : (dialled_all c course.meanwhile).conn ≡ last_or none course.meanwhile =
      dialled_all-conn c course.meanwhile ∙ ap (λ o. last_or o course.meanwhile) e in
    ap (λ o. some (record (dialled_all c course.meanwhile) { conn = o }, [])) holds
reconnect_held-ends force wait c course (some held) e h =
    let cleared =
      clear_conn-dialled_all c held course.meanwhile e (All-new c held course.meanwhile e h.1) in
    rw (over force wait c course h) (ap (λ d. some (d, held ∷ [])) cleared)

reconnect-ends :
    (force : Bool) (wait : ℤ) (c : Client) (course : Course)
    → IsCourse force wait c course
    → reconnect force wait c course ≡ some (redialled c course.meanwhile, to_list c.conn)
unfolding reconnect
reconnect-ends force wait c course h = reconnect_held-ends force wait c course c.conn refl h

-- The courses of the clients of a group, from the `j`-th on.
abbrev pub AreCourses : Bool → ℤ → (ℕ → Course) → ℕ → List Client → Type 0
AreCourses force wait courses j [] = Unit
AreCourses force wait courses j (c ∷ clients) =
    IsCourse force wait c (courses j) × AreCourses force wait courses (j + 1) clients

abbrev pub AreGroupCourses : Bool → ℤ → (ℕ → ℕ → Course) → ℕ → List Group → Type 0
AreGroupCourses force wait courses i [] = Unit
AreGroupCourses force wait courses i (g ∷ groups) =
    AreCourses force wait (courses i) 0 g.clients
    × AreGroupCourses force wait courses (i + 1) groups

abbrev pub redialled_clients : (ℕ → Course) → ℕ → List Client → List Client
redialled_clients courses j [] = []
redialled_clients courses j (c ∷ clients) =
    redialled c (courses j).meanwhile ∷ redialled_clients courses (j + 1) clients

abbrev pub redialled_groups : (ℕ → ℕ → Course) → ℕ → List Group → List Group
redialled_groups courses i [] = []
redialled_groups courses i (g ∷ groups) =
    record g { clients = redialled_clients (courses i) 0 g.clients }
    ∷ redialled_groups courses (i + 1) groups

abbrev pub open_in_group : List Client → List ℕ
open_in_group [] = []
open_in_group (c ∷ clients) = to_list c.conn ++ open_in_group clients

abbrev pub open_conns : List Group → List ℕ
open_conns [] = []
open_conns (g ∷ groups) = open_in_group g.clients ++ open_conns groups

reconnect_clients-ends :
    (force : Bool) (wait : ℤ) (courses : ℕ → Course) (j : ℕ) (clients : List Client)
    → AreCourses force wait courses j clients
    → reconnect_clients force wait courses j clients
      ≡ some (redialled_clients courses j clients, open_in_group clients)
unfolding reconnect_clients
reconnect_clients-ends force wait courses j [] h = refl
reconnect_clients-ends force wait courses j (c ∷ clients) (h, hs) =
    rw
      (
        reconnect-ends force wait c (courses j) h,
        reconnect_clients-ends force wait courses (j + 1) clients hs,
      )
      refl

reconnect_groups-ends :
    (force : Bool) (wait : ℤ) (courses : ℕ → ℕ → Course) (i : ℕ) (groups : List Group)
    → AreGroupCourses force wait courses i groups
    → reconnect_groups force wait courses i groups
      ≡ some (redialled_groups courses i groups, open_conns groups)
unfolding reconnect_groups
reconnect_groups-ends force wait courses i [] h = refl
reconnect_groups-ends force wait courses i (g ∷ groups) (h, hs) =
    rw
      (
        reconnect_clients-ends force wait (courses i) 0 g.clients h,
        reconnect_groups-ends force wait courses (i + 1) groups hs,
      )
      refl

-- `Reconnect` returns: where it is forced, or each connection's loop, whose rounds are at least the
-- sleep apart, can go one round more than fit into `MaxRequestDuration`, and the connections that are
-- dialled meanwhile are new ones, it ends, has closed exactly the connections that were open when it
-- began, and leaves each client with the connection that it dialled last since then, or with none.
pub reconnect_all-ends :
    (force : Bool) (courses : ℕ → ℕ → Course) (sc : ShardedClient)
    → AreGroupCourses force sc.config.max_request_duration courses 0 sc.groups
    → reconnect_all force courses sc
      ≡ some (record sc { groups = redialled_groups courses 0 sc.groups }, open_conns sc.groups)
unfolding reconnect_all
reconnect_all-ends force courses sc h =
    rw (reconnect_groups-ends force sc.config.max_request_duration courses 0 sc.groups h) refl
