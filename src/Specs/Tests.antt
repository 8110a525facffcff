-- ===== src/Specs/Tests.antt =====
-- Small process specifications for `read_spec` of LabWork/Lab7/file_format.c.
use cs.Common.{ℕ, ◌≡◌, ◌≢◌, refl, none, some, List, [], ◌∷◌, map, Bytes, codes, decimal, arith}
use cs.Scheduler.{Pcb, rr, saved}
use cs.Scheduler.Machine.{Reachable}
use cs.Tokens.{next_token, cut}
use cs.Tokens.Split.{done, more}
use cs.Specs.{
  Result, ok, fault, null_file, null_token, no_fuel, bind, take_line, fgets, strip, copy_name,
  read_number, read_pcb, add_process, load_line, read_lines, read_spec,
}
use cs.Specs.Lines.{content, line_meaning, load_line_lem}
use cs.Specs.Kept.{Loaded}
use cs.Specs.Loads.{initial, read_spec-≢, read_spec-Reachable}
use cs.Specs.Printed.RoundTrip.{Spec, Prints, print_file, table_of, pcb_of, read_spec-print}

abbrev job : Spec
job = record { name = codes "job"; creation_quantum = 0; workload = 12; priority = 3 }

job-Prints : Prints job
unfolding decimal
job-Prints = record {
  word = record {
    head = 106;
    tail = codes "ob";
    nonempty = refl;
    plain = (refl, (refl, (refl, tt)));
  };
  name_fits = omega arith;
  quantum_fits = omega arith;
  workload_fits = omega arith;
  priority_fits = omega arith;
  line_fits = omega arith;
}

read_spec-print_example :
    read_spec (some (print_file (job ∷ job ∷ []))) [] ≡ ok (table_of 0 (job ∷ job ∷ []))
read_spec-print_example =
    read_spec-print (job ∷ job ∷ []) (job-Prints, (job-Prints, tt)) (omega arith)

read_spec-≢_example : read_spec (some (codes ",,,")) [] ≢ fault no_fuel
read_spec-≢_example = read_spec-≢ (some (codes ",,,"))

-- A comment, spaces around the fields, an empty line, a line of two fields, and a negative number.
abbrev mixed : Bytes
mixed = codes "# c\njob, 0, 12 ,3 # x\n\nbad,2\n"

mixed-ok : read_spec (some mixed) [] ≡ ok (pcb_of 0 job ∷ [])
unfolding read_spec read_lines load_line fgets take_line strip copy_name read_number read_pcb
    add_process next_token cut
mixed-ok = refl

read_spec-Reachable_example :
    Loaded (pcb_of 0 job ∷ []) × Reachable rr (initial saved (pcb_of 0 job ∷ []))
read_spec-Reachable_example = read_spec-Reachable rr saved (some mixed) (pcb_of 0 job ∷ []) mixed-ok

load_line_lem_example :
    load_line [] (codes "a,1,,#")
    ≡ line_meaning [] (content (codes "a,1,,#")) (codes "a" ∷ codes "1" ∷ [])
load_line_lem_example = load_line_lem [] (codes "a,1,,#") (codes "a" ∷ codes "1" ∷ []) (
    more (codes "a,1,,") [] 97 [] 44 (codes "1,,") (codes "1" ∷ []) refl tt (refl, tt) refl
      (more (codes "1,,") [] 49 [] 44 (codes ",") [] refl tt (refl, tt) refl
        (done (codes ",") (codes ",") refl (refl, tt))))

-- Three commas and no name.
no_name : read_spec (some (codes ",,,")) [] ≡ fault null_token
unfolding read_spec read_lines load_line fgets take_line strip copy_name read_number read_pcb
    add_process next_token cut
no_name = refl

no_file : read_spec none [] ≡ fault null_file
unfolding read_spec
no_file = refl

-- -1 is read into an `unsigned int`.
abbrev priorities : Result (List Pcb) → Result (List ℕ)
priorities r = bind r (λ ps. ok (map (λ p. p.priority) ps))

below_zero : priorities (read_spec (some (codes "B,4,5,-1")) []) ≡ ok (4294967295 ∷ [])
unfolding read_spec read_lines load_line fgets take_line strip copy_name read_number read_pcb
    add_process next_token cut
below_zero = refl
