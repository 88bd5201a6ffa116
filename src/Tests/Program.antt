-- ===== src/Tests/Program.antt =====
-- The test program on its own input.
use serialization_cpp.Common.{[], ◌∷◌, refl, true, arith, ◌≡◌}
use serialization_cpp.Common.Result.{ok}
use serialization_cpp.Pod.{Pod}
use serialization_cpp.Pod.Order.{IsPod}
use serialization_cpp.Hex.RoundTrip.{hex_text}
use serialization_cpp.Tests.Trees.{tree_writer}
use serialization_cpp.Tests.Documented.{tree_writer-IsDocumented}
use serialization_cpp.TestProgram.{checks}
use serialization_cpp.TestProgram.Passes.{checks_pass}

-- The input of the program, as bytes.
abbrev input : Pod
input = record {
  bytes =
      0x97 ∷ 0x45 ∷ 0x06 ∷ 0x60 ∷ 0x1a ∷ 0x60 ∷ 0xdc ∷ 0x46 ∷ 0x5e ∷ 0x6e ∷ 0x9a ∷ 0xcd ∷ 0xdb
      ∷ 0x56 ∷ 0x38 ∷ 0x89 ∷ 0xe6 ∷ 0x34 ∷ 0x71 ∷ 0x84 ∷ 0x9e ∷ 0xc4 ∷ 0x19 ∷ 0x86 ∷ 0x55 ∷ 0x65
      ∷ 0x03 ∷ 0x54 ∷ 0xb8 ∷ 0x54 ∷ 0x1f ∷ 0xcb ∷ [];
}

input-IsPod : IsPod 32 input
input-IsPod = record {
  sized = refl;
  all_bytes = (
    omega arith,
    (
      omega arith,
      (
        omega arith,
        (
          omega arith,
          (
            omega arith,
            (
              omega arith,
              (
                omega arith,
                (
                  omega arith,
                  (
                    omega arith,
                    (
                      omega arith,
                      (
                        omega arith,
                        (
                          omega arith,
                          (
                            omega arith,
                            (
                              omega arith,
                              (
                                omega arith,
                                (
                                  omega arith,
                                  (
                                    omega arith,
                                    (
                                      omega arith,
                                      (
                                        omega arith,
                                        (
                                          omega arith,
                                          (
                                            omega arith,
                                            (
                                              omega arith,
                                              (
                                                omega arith,
                                                (
                                                  omega arith,
                                                  (
                                                    omega arith,
                                                    (
                                                      omega arith,
                                                      (
                                                        omega arith,
                                                        (
                                                          omega arith,
                                                          (
                                                            omega arith,
                                                            (
                                                            omega arith,
                                                            (omega arith, (omega arith, tt)),
                                                            ),
                                                          ),
                                                        ),
                                                      ),
                                                    ),
                                                  ),
                                                ),
                                              ),
                                            ),
                                          ),
                                        ),
                                      ),
                                    ),
                                  ),
                                ),
                              ),
                            ),
                          ),
                        ),
                      ),
                    ),
                  ),
                ),
              ),
            ),
          ),
        ),
      ),
    ),
  );
}

checks_pass_example : checks tree_writer 32 (hex_text input.bytes) ≡ ok true
checks_pass_example = checks_pass tree_writer-IsDocumented 32 input input-IsPod (omega arith)
