-- ===== src/Tests/Served.antt =====
-- A server with one proxy, for the injectors and the manager of Toxiproxy.
use chaoskit.Prelude.{
  ℕ, ◌≡◌, ◌≢◌, refl, Bool, Bool-cases, true, false, not, ◌&&◌, ◌==◌, inl, inr, fun_ext, none, some,
  List, [], ◌∷◌, if◌then◌else◌, arith,
}
use chaoskit.Prelude.Int.{pos}
use chaoskit.Text.{Str, codes, str_eq, show_int}
use chaoskit.Text.Search.{str_eq_iff}
use chaoskit.Dict.{find}
use chaoskit.Errors.{Error, plain}
use chaoskit.Injectors.Client.{
  given, failed, Toxiproxy, ToxicLaws, ProxyLaws, changed, mark, OnAnswer, OnCreated,
}
use chaoskit.Injectors.Toxics.{toxiproxy_slicer, inject_slicer, stop_slicer}
use chaoskit.Injectors.Toxics.Restored.{
  ToxicInjector, ToxicCall, inject_any, stop_any, run_calls, stop_any-restores,
}
use chaoskit.Injectors.Proxies.{new_manager}
use chaoskit.Injectors.Proxies.Promises.{ManagerCall, Follows}
use chaoskit.Injectors.Proxies.Tracking.{Tracks, view}
use chaoskit.Injectors.Proxies.Refinement.{VisitsAll, run_manager, run_manager-refines}
use chaoskit.Tests.{thousandths}

abbrev pub refusal : Error
refusal = plain (codes "no")

-- The state is the table of the toxics.
abbrev toxics : Toxiproxy ℕ (ℕ → Str → Bool)
toxics = record {
  proxy = λ n w. (given 0, w);
  create_proxy = λ n l u w. (failed refusal, w);
  enable = λ r w. (none, w);
  delete = λ r w. (some refusal, w);
  add_toxic = λ r n k s f a w. if w r n then (some refusal, w) else (none, changed r n true w);
  remove_toxic = λ r n w. if w r n then (none, changed r n false w) else (some refusal, w);
}

toxic_laws : ToxicLaws toxics
toxic_laws = record {
  has_toxic = λ w. w;
  ref_of = λ n. 0;
  proxy_keeps = λ w n. refl;
  proxy_ref = λ w n r e. cc;
  add_toxic_lem =
      λ w r n k s f a. elim (Bool-cases (w r n)) [ inl e ↦ rw e refl | inr e ↦ rw e (refl, refl) ];
  remove_toxic_lem =
      λ w r n. elim (Bool-cases (w r n)) [ inl e ↦ rw e (refl, refl) | inr e ↦ rw e refl ];
}

abbrev slicer : ToxicInjector
slicer = ToxicInjector.slicer (toxiproxy_slicer (pos 7) (codes "db") (pos 64) (pos 32) (pos 10000))

-- Two injections, the second of which fails, and a Stop.
stop_any-restores_example :
    toxic_laws.has_toxic
      (stop_any thousandths toxics
        (run_calls thousandths toxics
          (ToxicCall.inject ∷ ToxicCall.inject ∷ [])
          slicer
          (λ r n. false)).0
        (run_calls thousandths toxics
          (ToxicCall.inject ∷ ToxicCall.inject ∷ [])
          slicer
          (λ r n. false)).1).1
    ≡ (λ r n. false)
unfolding toxiproxy_slicer toxic_laws stop_any run_calls inject_any stop_slicer inject_slicer str_eq
    show_int
stop_any-restores_example =
    stop_any-restores thousandths toxics toxic_laws slicer (λ r n. false)
      (ToxicCall.inject ∷ ToxicCall.inject ∷ []) refl refl refl

-- The state tells whether the server's one proxy, db, is alive.
abbrev pub db : Toxiproxy ℕ Bool
db = record {
  proxy = λ n w. (given 0, w);
  create_proxy =
      λ n l u w. if str_eq (codes "db") n && not w then (given 0, true) else (failed refusal, w);
  enable = λ r w. (none, w);
  delete = λ r w. if r == 0 then (none, false) else (some refusal, w);
  add_toxic = λ r n k s f a w. (none, w);
  remove_toxic = λ r n w. (none, w);
}

abbrev pub db_alive : Bool → ℕ → Bool
db_alive w r = w && (r == 0)

pub creating :
    (w : Bool) (n l u : Str)
    → OnCreated
        (db.create_proxy n l u w).0
        (λ r.
          (codes "db" ≡ n)
          × ((s : ℕ) → db_alive w s ≡ true → codes "db" ≢ n)
          × (db_alive (db.create_proxy n l u w).1 ≡ mark r true (db_alive w)))
        (db_alive (db.create_proxy n l u w).1 ≡ db_alive w)
creating true n l u = elim (Bool-cases (str_eq (codes "db") n)) [
  | inl e ↦ rw e refl
  | inr e ↦ rw e refl
]
creating false n l u = elim (Bool-cases (str_eq (codes "db") n)) [
  | inl e ↦ rw e ((str_eq_iff (codes "db") n).0 e, (λ s a. cc), fun_ext λ s. ground arith)
  | inr e ↦ rw e refl
]

pub deleting :
    (w : Bool) (r : ℕ)
    → OnAnswer
        (db.delete r w).0
        (db_alive (db.delete r w).1 ≡ mark r false (db_alive w))
        (db_alive (db.delete r w).1 ≡ db_alive w)
deleting w r = elim (Bool-cases (r == 0)) [
  | inl e ↦ rw e (fun_ext λ s. ground arith)
  | inr e ↦ rw e refl
]

abbrev pub db_laws : ProxyLaws db
db_laws = record {
  alive = db_alive;
  name_of = λ r. codes "db";
  create_lem = creating;
  enable_lem = λ w r. refl;
  delete_lem = deleting;
}

entry_eq : (i n : Str) (v r : ℕ) → i ≡ n → some v ≡ some r → ◌≡◌ {A = Str × ℕ} (i, v) (n, r)
entry_eq i n v r p q = cc

visits : VisitsAll (λ m. m)
unfolding find
visits [] n r f = cc
visits ((i, v) ∷ m) n r f = elim (Bool-cases (str_eq i n)) [
  | inl e ↦ inl (entry_eq i n v r ((str_eq_iff i n).0 e) (rw e at f))
  | inr e ↦ inr (visits m n r (rw e at f))
]

abbrev session : List ManagerCall
session =
    ManagerCall.create
      (record { name = codes "db"; listen = codes ":1"; upstream = codes ":2"; enabled = true })
    ∷ ManagerCall.get (codes "db")
    ∷ ManagerCall.remove (codes "web")
    ∷ ManagerCall.cleanup
    ∷ []

run_manager-refines_example :
    Follows
      (view db db_laws new_manager false)
      (run_manager db (λ m. m) session new_manager false).0.0
      (view db db_laws
        (run_manager db (λ m. m) session new_manager false).0.1
        (run_manager db (λ m. m) session new_manager false).1)
    × Tracks db db_laws
        (run_manager db (λ m. m) session new_manager false).0.1
        (run_manager db (λ m. m) session new_manager false).1
run_manager-refines_example = run_manager-refines db db_laws (λ m. m) visits session false
