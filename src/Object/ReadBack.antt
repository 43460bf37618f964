-- ===== src/Object/ReadBack.antt =====
-- What an assignment writes is read back, and the lists of names stay right.
use sobek.Base.{
  member-append, Distinct-append, ℕ, suc, ◌≤◌, Bool, true, List, [], ◌∷◌, ◌++◌, some, ◌≡◌, refl,
  arith, ◌==◌, ==→≡, if◌then◌else◌, is_some, length, Bool-cases, Option-cases, inl, inr,
}
use sobek.Value.{Value, object, Objects}
use sobek.Array.State.{Result, returned, called, setter_call, refuse, state}
use sobek.Object.{Store, value, get_str}
use sobek.Object.Chain.{Chain}
use sobek.Object.Assign.{set_str}
use sobek.Object.Written.{
  Verdict, refused, calls_setter, writes, verdict, Carries, IsCleanStore, Written,
}
use sobek.Object.Set.{set_str-Carries}
use sobek.Object.Names.{Named, IsNamed, refuse-IsNamed}

-- A success without a setter is a write.
Carries-returned :
    (s : Store) (name : ℕ) (val receiver : Value) (throw : Bool) (v : Verdict) (s' : Store)
    → Carries s name val receiver throw v (some (returned true s'))
    → (o : ℕ) × (receiver ≡ object o) × Written s o name val s'
Carries-returned s name val receiver throw refused s' c = absurd (ground (arith, c))
Carries-returned s name val receiver throw (calls_setter f) s' c = absurd (ground (arith, c))
Carries-returned s name val receiver throw writes s' (o, q, s'', e, w) =
    let same : s'' ≡ s' = ground (arith, e) in (o, q, rw same at w)

Written-read :
    (fuel : ℕ) (s s' : Store) (o name receiver : ℕ) (val : Value)
    → Written s o name val s'
    → get_str (suc fuel) s' o name receiver ≡ some (value val)
unfolding get_str
Written-read fuel s s' o name receiver val w =
    let (v, e, r, k) = w.slot in ground (arith, e, k receiver)

-- In a store whose properties hold the fields of their own kind only, an assignment through a chain of
-- prototypes that is within the fuel, and that succeeds without calling a setter, is read back from
-- its receiver: reading the property gives the value.
pub get_str-set_str :
    (rt : Objects) (fuel fuel' : ℕ) (s s' : Store) (o r name receiver : ℕ) (val : Value)
    (throw : Bool) {ps : List ℕ}
    → IsCleanStore s
    → Chain s o ps
    → length ps ≤ fuel
    → set_str rt fuel s o name val (object r) throw ≡ some (returned true s')
    → get_str (suc fuel') s' r name receiver ≡ some (value val)
get_str-set_str rt fuel fuel' s s' o r name receiver val throw {ps} clean c le h =
    let (r', q, w) =
      Carries-returned s name val (object r) throw (verdict s name ps (object r)) s'
        (rw h at (set_str-Carries rt fuel s o name val (object r) throw clean c le)) in
    let same : r' ≡ r = ground (arith, q) in
    Written-read fuel' s s' r name receiver val (rw same at w)

module _ (s s' : Store) (r name : ℕ) (val : Value) (w : Written s r name val s')
    (g : IsNamed s) where
  written_values :
      (n : ℕ) → is_some ((s' r).values n) ≡ (if n == name then true else is_some ((s r).values n))
  written_values n = elim (Bool-cases (n == name)) [
    | inl y ↦ let same = ==→≡ n name y in let (v, e, k, l) = w.slot in rw (y, same, e) refl
    | inr h ↦ let e = w.others r n (ground (arith, h)) in rw (h, e) refl
  ]

  written-Named : Named (s' r)
  written-Named = elim (Option-cases ((s r).values name)) [
    | inl n ↦
        let e : (s' r).prop_names ≡ (s r).prop_names ++ (name ∷ []) = ground (arith, w.names, n) in
        record {
          listed = λ k.
              rw (e, member-append k name (s r).prop_names, written_values k)
                (ground (arith, (g r).listed k));
          distinct = rw e (
              Distinct-append name (s r).prop_names (ground (arith, (g r).listed name, n))
                (g r).distinct);
        }
    | inr (v, q) ↦
        let e : (s' r).prop_names ≡ (s r).prop_names = ground (arith, w.names, q) in
        record {
          listed = λ k. rw (e, written_values k) (ground (arith, (g r).listed k, ==→≡ k name, q));
          distinct = rw e (g r).distinct;
        }
  ]

  Written-IsNamed : IsNamed s'
  Written-IsNamed o = elim (Bool-cases (o == r)) [
    | inl y ↦ let same = ==→≡ o r y in rw same written-Named
    | inr n ↦
        let e = w.other_names o n in
        record {
          listed = λ k. let f = w.others o k (ground (arith, n)) in rw (e, f) ((g o).listed k);
          distinct = rw e (g o).distinct;
        }
  ]

-- Whatever an assignment comes to, the lists of names stay those of the properties.
pub set_str-IsNamed :
    (rt : Objects) (fuel : ℕ) (s : Store) (o name : ℕ) (val receiver : Value) (throw : Bool)
    {ps : List ℕ}
    → IsCleanStore s
    → IsNamed s
    → Chain s o ps
    → length ps ≤ fuel
    → (r : Result Store) × (set_str rt fuel s o name val receiver throw ≡ some r)
      × IsNamed (state r)
set_str-IsNamed rt fuel s o name val receiver throw {ps} clean g c le =
    by_verdict (verdict s name ps receiver)
      (set_str-Carries rt fuel s o name val receiver throw clean c le)
  where
    by_verdict :
        (v : Verdict)
        → Carries s name val receiver throw v (set_str rt fuel s o name val receiver throw)
        → (r : Result Store) × (set_str rt fuel s o name val receiver throw ≡ some r)
          × IsNamed (state r)
    by_verdict refused d = (refuse throw s, d, refuse-IsNamed throw s g)
    by_verdict (calls_setter f) d = (called (setter_call f (some receiver) val) s, d, g)
    by_verdict writes (q, e, s', k, w) = (returned true s', k, Written-IsNamed s s' q name val w g)
