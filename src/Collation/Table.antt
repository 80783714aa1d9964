-- ===== src/Collation/Table.antt =====
-- `COLLATION_LCID_MAP` of src/project/collation.rs, in its order.
use rust_sqlpackage.Prelude.{ℕ, List, [], ◌∷◌, Text, codes}

unfoldable pub collation_lcid_map : List (Text × ℕ)
collation_lcid_map =
    (codes "SQL_Latin1_General_CP1254", 1055)
    ∷ (codes "SQL_Latin1_General_CP1253", 1032)
    ∷ (codes "SQL_Latin1_General_CP1251", 1049)
    ∷ (codes "SQL_Latin1_General_CP1250", 1045)
    ∷ (codes "SQL_Latin1_General_CP850", 1033)
    ∷ (codes "SQL_Latin1_General_CP437", 1033)
    ∷ (codes "SQL_Latin1_General_CP1", 1033)
    ∷ (codes "SQL_Latin1_General_Pref_CP1", 1033)
    ∷ (codes "SQL_AltDiction_CP1253", 1032)
    ∷ (codes "SQL_AltDiction_CP850", 1033)
    ∷ (codes "SQL_Croatian", 1050)
    ∷ (codes "SQL_Czech", 1029)
    ∷ (codes "SQL_Danish_Pref_CP1", 1030)
    ∷ (codes "SQL_EBCDIC037", 1033)
    ∷ (codes "SQL_EBCDIC273", 1031)
    ∷ (codes "SQL_EBCDIC277", 1030)
    ∷ (codes "SQL_EBCDIC278", 1035)
    ∷ (codes "SQL_EBCDIC280", 1040)
    ∷ (codes "SQL_EBCDIC284", 3082)
    ∷ (codes "SQL_EBCDIC285", 2057)
    ∷ (codes "SQL_EBCDIC297", 1036)
    ∷ (codes "SQL_Estonian", 1061)
    ∷ (codes "SQL_Hungarian", 1038)
    ∷ (codes "SQL_Icelandic_Pref_CP1", 1039)
    ∷ (codes "SQL_Latin1_General", 1033)
    ∷ (codes "SQL_Latvian", 1062)
    ∷ (codes "SQL_Lithuanian", 1063)
    ∷ (codes "SQL_Polish", 1045)
    ∷ (codes "SQL_Romanian", 1048)
    ∷ (codes "SQL_Scandinavian_Pref_CP850", 1044)
    ∷ (codes "SQL_Scandinavian_CP850", 1044)
    ∷ (codes "SQL_Slovak", 1051)
    ∷ (codes "SQL_Slovenian", 1060)
    ∷ (codes "SQL_Swedish_Pref_CP1", 1053)
    ∷ (codes "SQL_SwedishPhone_Pref_CP1", 1053)
    ∷ (codes "SQL_SwedishStd_Pref_CP1", 1053)
    ∷ (codes "SQL_Ukrainian", 1058)
    ∷ (codes "Albanian", 1052)
    ∷ (codes "Arabic", 1025)
    ∷ (codes "Assamese", 1101)
    ∷ (codes "Azeri_Cyrillic", 2092)
    ∷ (codes "Azeri_Latin", 1068)
    ∷ (codes "Bashkir", 1133)
    ∷ (codes "Bengali", 1093)
    ∷ (codes "Bosnian_Cyrillic", 8218)
    ∷ (codes "Bosnian_Latin", 5146)
    ∷ (codes "Breton", 1150)
    ∷ (codes "Bulgarian", 1026)
    ∷ (codes "Catalan", 1027)
    ∷ (codes "Chinese_Hong_Kong_Stroke", 3076)
    ∷ (codes "Chinese_Macao_Stroke", 5124)
    ∷ (codes "Chinese_PRC_Stroke", 2052)
    ∷ (codes "Chinese_PRC", 2052)
    ∷ (codes "Chinese_Simplified_Pinyin", 2052)
    ∷ (codes "Chinese_Simplified_Stroke_Order", 2052)
    ∷ (codes "Chinese_Taiwan_Bopomofo", 1028)
    ∷ (codes "Chinese_Taiwan_Stroke", 1028)
    ∷ (codes "Chinese_Traditional_Bopomofo", 1028)
    ∷ (codes "Chinese_Traditional_Pinyin", 1028)
    ∷ (codes "Chinese_Traditional_Stroke_Count", 1028)
    ∷ (codes "Chinese_Traditional_Stroke_Order", 1028)
    ∷ (codes "Corsican", 1155)
    ∷ (codes "Croatian", 1050)
    ∷ (codes "Cyrillic_General", 1049)
    ∷ (codes "Czech", 1029)
    ∷ (codes "Danish_Greenlandic", 1030)
    ∷ (codes "Danish_Norwegian", 1030)
    ∷ (codes "Danish", 1030)
    ∷ (codes "Dari", 1164)
    ∷ (codes "Divehi", 1125)
    ∷ (codes "Dutch", 1043)
    ∷ (codes "Estonian", 1061)
    ∷ (codes "Finnish_Swedish", 1035)
    ∷ (codes "Finnish", 1035)
    ∷ (codes "Frisian", 1122)
    ∷ (codes "French", 1036)
    ∷ (codes "Georgian_Modern_Sort", 1079)
    ∷ (codes "German_PhoneBook", 1031)
    ∷ (codes "German", 1031)
    ∷ (codes "Greek", 1032)
    ∷ (codes "Gujarati", 1095)
    ∷ (codes "Hausa", 1128)
    ∷ (codes "Hebrew", 1037)
    ∷ (codes "Hindi", 1081)
    ∷ (codes "Hungarian_Technical", 1038)
    ∷ (codes "Hungarian", 1038)
    ∷ (codes "Icelandic", 1039)
    ∷ (codes "Igbo", 1136)
    ∷ (codes "Indic_General", 1081)
    ∷ (codes "Indonesian", 1057)
    ∷ (codes "Inuktitut", 1117)
    ∷ (codes "Irish", 2108)
    ∷ (codes "Italian", 1040)
    ∷ (codes "Japanese_Bushu_Kakusu", 1041)
    ∷ (codes "Japanese_Radical_Stroke", 1041)
    ∷ (codes "Japanese_XJIS", 1041)
    ∷ (codes "Japanese", 1041)
    ∷ (codes "Kannada", 1099)
    ∷ (codes "Kazakh", 1087)
    ∷ (codes "Khmer", 1107)
    ∷ (codes "Korean_Wansung", 1042)
    ∷ (codes "Korean", 1042)
    ∷ (codes "Kyrgyz", 1088)
    ∷ (codes "Lao", 1108)
    ∷ (codes "Latin1_General_100", 1033)
    ∷ (codes "Latin1_General", 1033)
    ∷ (codes "Latvian", 1062)
    ∷ (codes "Lithuanian_Classic", 1063)
    ∷ (codes "Lithuanian", 1063)
    ∷ (codes "Luxembourgish", 1134)
    ∷ (codes "Macedonian_FYROM", 1071)
    ∷ (codes "Malay", 1086)
    ∷ (codes "Malayalam", 1100)
    ∷ (codes "Maltese", 1082)
    ∷ (codes "Maori", 1153)
    ∷ (codes "Mapudungan", 1146)
    ∷ (codes "Marathi", 1102)
    ∷ (codes "Mohawk", 1148)
    ∷ (codes "Mongolian", 1104)
    ∷ (codes "Nepali", 1121)
    ∷ (codes "Norwegian", 1044)
    ∷ (codes "Occitan", 1154)
    ∷ (codes "Oriya", 1096)
    ∷ (codes "Pashto", 1123)
    ∷ (codes "Persian", 1065)
    ∷ (codes "Polish", 1045)
    ∷ (codes "Portuguese", 1046)
    ∷ (codes "Punjabi", 1094)
    ∷ (codes "Quechua", 1131)
    ∷ (codes "Romanian", 1048)
    ∷ (codes "Romansh", 1047)
    ∷ (codes "Russian", 1049)
    ∷ (codes "Sami_Norway", 1083)
    ∷ (codes "Sami_Sweden_Finland", 2107)
    ∷ (codes "Sanskrit", 1103)
    ∷ (codes "Serbian_Cyrillic", 3098)
    ∷ (codes "Serbian_Latin", 2074)
    ∷ (codes "Sesotho_sa_Leboa", 1132)
    ∷ (codes "Setswana", 1074)
    ∷ (codes "Sinhala", 1115)
    ∷ (codes "Slovak", 1051)
    ∷ (codes "Slovenian", 1060)
    ∷ (codes "Spanish", 3082)
    ∷ (codes "Syriac", 1114)
    ∷ (codes "Tamazight", 2143)
    ∷ (codes "Tamil", 1097)
    ∷ (codes "Tatar", 1092)
    ∷ (codes "Telugu", 1098)
    ∷ (codes "Thai", 1054)
    ∷ (codes "Tibetan", 1105)
    ∷ (codes "Traditional_Spanish", 1034)
    ∷ (codes "Turkish", 1055)
    ∷ (codes "Turkmen", 1090)
    ∷ (codes "Uighur", 1152)
    ∷ (codes "Ukrainian", 1058)
    ∷ (codes "Upper_Sorbian", 1070)
    ∷ (codes "Urdu", 1056)
    ∷ (codes "Uzbek_Latin", 1091)
    ∷ (codes "Vietnamese", 1066)
    ∷ (codes "Welsh", 1106)
    ∷ (codes "Yakut", 1157)
    ∷ (codes "Yi", 1144)
    ∷ (codes "Yoruba", 1130)
    ∷ []
